-- ===== src/Symbols/Tests.antt =====
-- Runs of overload resolution and of scopes.
use my_llvm_c.Prelude.{◌≡◌, ◌↔◌, refl, false, List, [], ◌∷◌, none, some, codes, bytes_eq}
use my_llvm_c.Types.{
  AstType, AstTypes, nil, cons, basic, kind_int64, kind_float64, kind_uint8, function, plain, int32,
}
use my_llvm_c.Types.Conversion.{conversion_rank}
use my_llvm_c.Symbols.{Symbol}
use my_llvm_c.Symbols.Overload.{resolve}
use my_llvm_c.Symbols.Overload.Unique.{UniqueBest}
use my_llvm_c.Symbols.Overload.Chosen.{resolve_iff}
use my_llvm_c.Symbols.Scope.{Scope, declare, lookup, overloads, first_of}
use my_llvm_c.Symbols.Scope.Declare.{lookup-declare}

-- `f` of one parameter.
abbrev f_of : AstType → Symbol
f_of t = record {
  name = codes "f";
  type = function plain int32 (cons t nil) false;
  default_arg_count = some 0;
}

abbrev candidates : List Symbol
candidates = f_of (basic plain kind_int64) ∷ f_of (basic plain kind_float64) ∷ f_of int32 ∷ []

abbrev one_int : AstTypes
one_int = cons int32 nil

abbrev one_byte : AstTypes
one_byte = cons (basic plain kind_uint8) nil

exact : resolve one_int candidates ≡ some (f_of int32)
unfolding resolve conversion_rank
exact = refl

-- All three take a byte by one conversion.
ambiguous : resolve one_byte candidates ≡ none
unfolding resolve conversion_rank
ambiguous = refl

resolve_iff_example :
    (resolve one_int candidates ≡ some (f_of int32)) ↔ UniqueBest one_int candidates (f_of int32)
resolve_iff_example = resolve_iff one_int candidates (f_of int32)

abbrev empty_scope : Scope
empty_scope = record { symbols = []; parents = [] }

lookup-declare_example :
    (lookup (codes "f") (declare (codes "f") (f_of int32) empty_scope).1
      ≡ first_of (some (overloads (codes "f") [])) (some (f_of int32)))
    × (bytes_eq (codes "f") (codes "g") ≡ false
        → lookup (codes "g") (declare (codes "f") (f_of int32) empty_scope).1
          ≡ lookup (codes "g") empty_scope)
lookup-declare_example = lookup-declare (codes "f") (codes "g") (f_of int32) empty_scope
