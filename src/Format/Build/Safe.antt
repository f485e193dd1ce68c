-- ===== src/Format/Build/Safe.antt =====
-- src/ast/PrintFormat.cpp: what printf takes for a format of `buildPrintFormat`.
use my_llvm_c.Prelude.{◌≡◌, Bool, Bytes, [], some, if◌then◌else◌, List, codes, length}
use my_llvm_c.Format.Spec.{PrintSpec}
use my_llvm_c.Format.Spec.Conversion.{PrintArgKind}
use my_llvm_c.Format.Build.{Built, built, failed, stuck}
use my_llvm_c.Format.Build.Printf.{in_text, read_printf}
use my_llvm_c.Format.Build.Rounds.{all_passed}

-- What is claimed of a finished format.
abbrev Final : List PrintArgKind → Bytes → List PrintSpec → Type 0
Final kinds format specs =
    (length specs ≡ length kinds) × (read_printf in_text format ≡ some (all_passed kinds specs))

newline_text : Bool → Bytes
newline_text newline = if newline then codes "\n" else []

built_format : Built → Bytes
built_format (built f sps) = f
built_format (failed e) = []
built_format stuck = []

built_specs : Built → List PrintSpec
built_specs (built f sps) = sps
built_specs (failed e) = []
built_specs stuck = []
