-- ===== src/Format/Build.antt =====
-- src/ast/PrintFormat.cpp: `buildPrintFormat`, which turns a literal with `{}` placeholders into a printf format.
pub mod Printf
pub mod Directive
pub mod Kinds
pub mod Convert
pub mod Rounds
pub mod Safe
pub mod Pieces
pub mod Finishes
use my_llvm_c.Prelude.{
  ℕ, zero, suc, Bool, true, false, Bytes, [], ◌∷◌, ◌++◌, ◌==◌, if◌then◌else◌, codes, List, length,
}
use my_llvm_c.Format.Spec.{PrintSpec, default_spec, SpecError, Parsed, ok, error, parse_print_spec}
use my_llvm_c.Format.Spec.Conversion.{
  PrintArgKind, default_conversion, Conversion, converted, unsupported, spec_to_printf_conversion,
}

-- The failures of `buildPrintFormat`: the first four are of the category `ArgCount`, then `SpecSyntax`, `SpecType`.
pub data PrintFormatError : Type 0 where
  unterminated too_few too_many single_brace : PrintFormatError
  spec_syntax : SpecError → PrintFormatError
  spec_type : PrintFormatError

pub data Built : Type 0 where
  -- `outFormat` and `outSpecs`.
  built : Bytes → List PrintSpec → Built
  failed : PrintFormatError → Built
  -- The steps ran out.
  stuck : Built

-- `outFormat`, `outSpecs` and the kinds from `slot` on.
pub record Output : Type 0 where
  pub format : Bytes
  pub specs : List PrintSpec
  pub kinds : List PrintArgKind

-- The text up to the next `}`, and what begins with it.
unfoldable pub until_brace : Bytes → Bytes × Bytes
until_brace [] = ([], [])
until_brace (c ∷ s) =
    let (spec, left) = until_brace s in if c == b'}' then ([], c ∷ s) else (c ∷ spec, left)

-- The spec behind `{`: only a colon begins one.
unfoldable pub read_spec : Bytes → Bytes × Bytes
read_spec [] = ([], [])
read_spec (c ∷ s) = if c == b':' then until_brace s else ([], c ∷ s)

-- One placeholder: the conversion and the spec it is recorded with.
pub data Placeholder : Type 0 where
  placed : Bytes → PrintSpec → Placeholder
  refused : PrintFormatError → Placeholder

unfoldable pub convert : PrintSpec → Conversion → Placeholder
convert sp (converted text render) = placed text sp
convert sp unsupported = refused spec_type

unfoldable pub parsed_placeholder : PrintArgKind → Parsed → Placeholder
parsed_placeholder k (ok sp) = convert sp (spec_to_printf_conversion k sp)
parsed_placeholder k (error e) = refused (spec_syntax e)

unfoldable pub placeholder : PrintArgKind → Bytes → Placeholder
placeholder k [] = placed (default_conversion k) default_spec
placeholder k (c ∷ spec) = parsed_placeholder k (parse_print_spec (c ∷ spec))

-- The end of the literal, where no kind may be left.
unfoldable pub finish_kinds : Bool → Output → List PrintArgKind → Built
finish_kinds newline o [] = built (o.format ++ (if newline then codes "\n" else [])) o.specs
finish_kinds newline o (k ∷ ks) = failed too_many

unfoldable pub finish : Bool → Output → Built
finish newline o = finish_kinds newline o o.kinds

-- `outFormat += text`
unfoldable pub emit : Output → Bytes → Output
emit o text = record o { format = o.format ++ text }

-- One round of the loop: go on with the rest of the literal, or stop.
pub data Round : Type 0 where
  go : Bytes → Output → Round
  stop : PrintFormatError → Round

unfoldable pub place : Placeholder → Bytes → List PrintArgKind → Output → Round
place (placed text sp) left ks o =
    go left (record { format = o.format ++ text; specs = o.specs ++ sp ∷ []; kinds = ks })
place (refused e) left ks o = stop e

unfoldable pub fill_slot : Bytes → Bytes → List PrintArgKind → Output → Round
fill_slot spec left [] o = stop too_few
fill_slot spec left (k ∷ ks) o = place (placeholder k spec) left ks o

unfoldable pub close_spec : Bytes → Bytes → Output → Round
close_spec spec [] o = stop unterminated
close_spec spec (c ∷ left) o =
    if c == b'}' then fill_slot spec left o.kinds o else stop unterminated

-- Behind `{`.
unfoldable pub open_brace : Bytes → Output → Round
open_brace [] o = stop unterminated
open_brace (c ∷ s) o =
    if c == b'{'
    then go s (emit o (codes "{"))
    else let (spec, left) = read_spec (c ∷ s) in close_spec spec left o

-- Behind `}`.
unfoldable pub close_brace : Bytes → Output → Round
close_brace [] o = stop single_brace
close_brace (c ∷ s) o = if c == b'}' then go s (emit o (codes "}")) else stop single_brace

unfoldable pub round : ℕ → Bytes → Output → Round
round c s o =
    if c == b'{'
    then open_brace s o
    else if c == b'}'
    then close_brace s o
    else if c == b'%'
    then go s (emit o (codes "%%"))
    else go s (emit o (c ∷ []))

unfoldable pub resume : (Bytes → Output → Built) → Round → Built
resume next (go s o) = next s o
resume next (stop e) = failed e

-- Every round takes a byte of the literal, so its length is fuel enough.
unfoldable pub build_fuel : Bool → ℕ → Bytes → Output → Built
build_fuel newline fuel [] o = finish newline o
build_fuel newline zero (c ∷ s) o = stuck
build_fuel newline (suc fuel) (c ∷ s) o =
    resume (λ s' o'. build_fuel newline fuel s' o') (round c s o)

unfoldable pub build_print_format : Bytes → List PrintArgKind → Bool → Built
build_print_format literal kinds newline =
    build_fuel newline (length literal) literal (record { format = []; specs = []; kinds = kinds })
