-- ===== src/Symbols/Overload.antt =====
-- src/ast/Symbol.cpp: `OverloadSet::resolve`. A candidate's type is not null.
pub mod Unique
pub mod Chosen
use my_llvm_c.Prelude.{
  ℕ, ◌+◌, ◌-◌, Bool, true, false, ◌&&◌, ◌||◌, List, [], ◌∷◌, Option, none, some, ltb, ◌==◌,
  if◌then◌else◌,
}
use my_llvm_c.Types.{
  AstType, null, basic, pointer, array, struct, class, union, enum, function, typedef, slice,
  optional, result, type_var, type_instance, AstTypes, nil, cons, count,
}
use my_llvm_c.Types.Conversion.{conversion_rank}
use my_llvm_c.Symbols.{Symbol}

-- The sum of the ranks of the arguments that have a parameter; `none` if one does not convert.
unfoldable pub total_rank : AstTypes → AstTypes → ℕ → Option ℕ
total_rank (cons a args) (cons p params) acc = elim (conversion_rank a p) [
  | none ↦ none
  | some r ↦ total_rank args params (acc + r)
]
total_rank _ _ acc = some acc

unfoldable pub default_count : Symbol → ℕ
default_count sym = elim sym.default_arg_count [ none ↦ 0 | some n ↦ n ]

-- Whether a function with `fixed` parameters takes `given` arguments.
unfoldable pub takes_count : ℕ → ℕ → ℕ → Bool → Bool
takes_count given fixed defaults vararg =
    if ltb given (fixed - defaults)
    then false
    else if vararg
    then true
    else if ltb fixed given
    then false
    else true

-- The rank of the candidate, `none` if it is not viable.
unfoldable pub function_rank : AstTypes → ℕ → AstType → Option ℕ
unfolding total_rank takes_count
function_rank args defaults (function q ret params vararg) =
    if takes_count (count args) (count params) defaults vararg
    then elim (total_rank args params 0) [
      | none ↦ none
      | some r ↦ some (if vararg then r + 1 else r)
    ]
    else none
function_rank args defaults _ = none

-- What the loop of `resolve` keeps: the best candidate so far with its rank and its default arguments, and whether
-- another one is as good.
pub record Best : Type 0 where
  pub symbol : Symbol
  pub rank : ℕ
  pub defaults : ℕ

pub record Search : Type 0 where
  pub best : Option Best
  pub ambiguous : Bool

abbrev pub start : Search
start = record { best = none; ambiguous = false }

abbrev pub found : Best → Search
found b = record { best = some b; ambiguous = false }

-- A viable candidate against the best one.
unfoldable pub compare_best : Best → Best → Bool → Search
compare_best b old ambiguous =
    if ltb b.rank old.rank || (b.rank == old.rank && ltb b.defaults old.defaults)
    then found b
    else if b.rank == old.rank && b.defaults == old.defaults
    then record { best = some old; ambiguous = true }
    else record { best = some old; ambiguous = ambiguous }

unfoldable pub place : Best → Search → Search
unfolding compare_best
place b s = elim s.best [ none ↦ found b | some old ↦ compare_best b old s.ambiguous ]

-- A candidate with the rank and the defaults by which it is compared.
abbrev pub score : AstTypes → Symbol → Option Best
score args sym =
    let defaults = default_count sym in
    elim (function_rank args defaults sym.type) [
      | none ↦ none
      | some r ↦ some (record { symbol = sym; rank = r; defaults = defaults })
    ]

-- A round of the loop.
unfoldable pub consider : AstTypes → Search → Symbol → Search
unfolding default_count function_rank place
consider args s sym = elim (score args sym) [ none ↦ s | some b ↦ place b s ]

unfoldable pub consider_all : AstTypes → Search → List Symbol → Search
unfolding consider
consider_all args s [] = s
consider_all args s (sym ∷ rest) = consider_all args (consider args s sym) rest

unfoldable pub answer : Search → Option Symbol
answer s = if s.ambiguous then none else elim s.best [ none ↦ none | some b ↦ some b.symbol ]

unfoldable pub resolve : AstTypes → List Symbol → Option Symbol
unfolding consider_all answer
resolve args candidates = answer (consider_all args start candidates)
