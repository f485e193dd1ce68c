-- ===== src/Modules/Tests.antt =====
-- Runs of the loader.
use my_llvm_c.Prelude.{
  ◌≡◌, refl, true, false, Bool, [], ◌∷◌, some, length, map, suc, Bytes, bytes_eq, codes,
}
use my_llvm_c.Mangle.{has}
use my_llvm_c.Modules.{
  Files, Source, parsed, circular_import, import_candidates, specifier_to_module_name,
  process_imports, start_loader,
}
use my_llvm_c.Modules.Once.{IsOnce, process_imports-IsOnce}
use my_llvm_c.Modules.Ends.{FilesKnown, process_imports-finishes}

abbrev a_file : Bytes
a_file = codes "a.cmm"

abbrev b_file : Bytes
b_file = codes "b.cmm"

-- Modules `a` and `b` import each other; every path leads to one of them.
abbrev source_of : Bool → Source Bytes
source_of true =
    parsed [] (record {
      module_name = codes "a";
      imports = codes "b" ∷ [];
      declarations = codes "in a" ∷ [];
    })
source_of false =
    parsed [] (record {
      module_name = codes "b";
      imports = codes "a" ∷ [];
      declarations = codes "in b" ∷ [];
    })

abbrev file_named : Bool → Bytes
file_named true = a_file
file_named false = b_file

abbrev two_files : Files Bytes
two_files = record {
  canonical = λ path. file_named (bytes_eq path a_file);
  parent = λ path. [];
  regular_file = λ dir c. some c;
  source = λ path. source_of (bytes_eq path a_file);
  tag = λ name d. d;
}

dotted :
    import_candidates (codes "std.c")
    ≡ codes "std/c.cmm" ∷ codes "std/c" ∷ codes "std.c.cmm" ∷ codes "std.c" ∷ []
unfolding import_candidates
dotted = refl

named : specifier_to_module_name (codes "std/c.cmm") ≡ codes "std.c"
unfolding specifier_to_module_name
named = refl

-- The imported module comes before the importer, and the way back is reported.
cycle :
    map (λ m. m.0) (process_imports two_files 3 [] ([] ∷ []) (codes "a" ∷ []) (start_loader [])).out
    ≡ a_file ∷ b_file ∷ []
unfolding process_imports
cycle = refl

cycle_reported :
    (process_imports two_files 3 [] ([] ∷ []) (codes "a" ∷ []) (start_loader [])).errors
    ≡ circular_import (a_file ∷ b_file ∷ a_file ∷ []) ∷ []
unfolding process_imports
cycle_reported = refl

process_imports-IsOnce_example :
    IsOnce Bytes (process_imports two_files 3 [] ([] ∷ []) (codes "a" ∷ []) (start_loader []))
    × ((process_imports two_files 3 [] ([] ∷ []) (codes "a" ∷ []) (start_loader [])).active ≡ [])
process_imports-IsOnce_example = process_imports-IsOnce two_files 3 [] ([] ∷ []) (codes "a" ∷ []) []

named-known : (b : Bool) → has (file_named b) (a_file ∷ b_file ∷ []) ≡ true
unfolding has
named-known true = refl
named-known false = refl

two_files-FilesKnown : FilesKnown two_files (a_file ∷ b_file ∷ [])
two_files-FilesKnown spec dirs path e = named-known (bytes_eq path a_file)

process_imports-finishes_example :
    (process_imports two_files
      (suc (length (a_file ∷ b_file ∷ [])))
      []
      ([] ∷ [])
      (codes "a" ∷ [])
      (start_loader [])).exhausted
    ≡ false
process_imports-finishes_example =
    process_imports-finishes two_files (a_file ∷ b_file ∷ []) [] ([] ∷ []) (codes "a" ∷ []) []
      two_files-FilesKnown
