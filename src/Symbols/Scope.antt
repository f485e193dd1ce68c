-- ===== src/Symbols/Scope.antt =====
-- src/ast/Symbol.cpp: `Scope`. A map from names is a list of entries, and a scope is its own map and those of its
-- parents, the nearest first.
pub mod Declare
use my_llvm_c.Prelude.{
  Bool, true, false, not, ◌&&◌, ◌||◌, List, [], ◌∷◌, ◌++◌, Option, none, some, if◌then◌else◌, Bytes,
  bytes_eq,
}
use my_llvm_c.Types.{
  AstType, null, basic, pointer, array, struct, class, union, enum, function, typedef, slice,
  optional, result, type_var, type_instance,
}
use my_llvm_c.Types.Equal.{types_equal}
use my_llvm_c.Symbols.{Symbol}

abbrev pub Table : Type 0
Table = List (Bytes × List Symbol)

pub record Scope : Type 0 where
  pub symbols : Table
  pub parents : List Table

-- `symbols.find`.
unfoldable pub find : Bytes → Table → Option (List Symbol)
find name [] = none
find name ((key, set) ∷ rest) =
    let later = find name rest in if bytes_eq key name then some set else later

-- The entry of `name` becomes `set`, and is made if there is none.
unfoldable pub put : Bytes → List Symbol → Table → Table
put name set [] = (name, set) ∷ []
put name set ((key, old) ∷ rest) =
    let later = put name set rest in
    if bytes_eq key name then (key, set) ∷ rest else (key, old) ∷ later

unfoldable pub first_of : Option (List Symbol) → Option Symbol → Option Symbol
first_of none outer = outer
first_of (some []) outer = outer
first_of (some (s ∷ rest)) outer = some s

-- `Scope::lookup`.
unfoldable pub lookup_in : Bytes → List Table → Option Symbol
unfolding find first_of
lookup_in name [] = none
lookup_in name (t ∷ parents) = first_of (find name t) (lookup_in name parents)

unfoldable pub lookup : Bytes → Scope → Option Symbol
unfolding lookup_in
lookup name s = lookup_in name (s.symbols ∷ s.parents)

-- `Scope::lookupOverload`.
unfoldable pub lookup_overload_in : Bytes → List Table → Option (List Symbol)
unfolding find
lookup_overload_in name [] = none
lookup_overload_in name (t ∷ parents) = elim (find name t) [
  | none ↦ lookup_overload_in name parents
  | some set ↦ some set
]

unfoldable pub lookup_overload : Bytes → Scope → Option (List Symbol)
unfolding lookup_overload_in
lookup_overload name s = lookup_overload_in name (s.symbols ∷ s.parents)

unfoldable pub is_function : AstType → Bool
is_function (function q a ps v) = true
is_function _ = false

-- Whether `existing` forbids the declaration of `new`: functions of one signature, or two that are no functions.
unfoldable pub clashes : Symbol → Symbol → Bool
unfolding is_function types_equal
clashes new existing =
    if is_function existing.type && is_function new.type
    then types_equal existing.type new.type
    else not (is_function existing.type) && not (is_function new.type)

unfoldable pub clashes_any : Symbol → List Symbol → Bool
unfolding clashes
clashes_any new [] = false
clashes_any new (existing ∷ rest) =
    let later = clashes_any new rest in if clashes new existing then true else later

-- `symbols[name]`, which makes an empty set.
unfoldable pub or_empty : Option (List Symbol) → List Symbol
or_empty none = []
or_empty (some set) = set

unfoldable pub overloads : Bytes → Table → List Symbol
unfolding find or_empty
overloads name t = or_empty (find name t)

-- `Scope::declare`.
unfoldable pub declare : Bytes → Symbol → Scope → Bool × Scope
unfolding put clashes_any overloads
declare name sym s =
    let set = overloads name s.symbols in
    if clashes_any sym set
    then (false, record s { symbols = put name set s.symbols })
    else (true, record s { symbols = put name (set ++ sym ∷ []) s.symbols })
