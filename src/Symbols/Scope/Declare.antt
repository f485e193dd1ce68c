-- ===== src/Symbols/Scope/Declare.antt =====
-- src/ast/Symbol.cpp: what `Scope::declare` does to the names of a scope.
use my_llvm_c.Prelude.{
  ◌≡◌, ◌↔◌, inl, inr, refl, ap, ap₂, ◌∙◌, Bool, true, false, List, [], ◌∷◌, ◌++◌, Option, some,
  Bool-cases, All, Bytes, bytes_eq, if◌then◌else◌,
}
use my_llvm_c.Types.Equal.Canonical.{bytes_eq_refl, bytes_eq_eq}
use my_llvm_c.Symbols.{Symbol}
use my_llvm_c.Symbols.Scope.{
  Table, Scope, find, put, first_of, lookup_in, lookup, clashes, clashes_any, overloads, declare,
}

find-put : (name : Bytes) (set : List Symbol) (t : Table) → find name (put name set t) ≡ some set
unfolding find put
find-put name set [] = rw (bytes_eq_refl name) refl
find-put name set ((key, old) ∷ rest) = elim (Bool-cases (bytes_eq key name)) [
  | inl e ↦ rw (put, e) (rw (find, e) refl)
  | inr e ↦ rw (put, e) (rw (find, e) (find-put name set rest))
]

other_find-put :
    (name other : Bytes) (set : List Symbol) (t : Table)
    → bytes_eq name other ≡ false
    → find other (put name set t) ≡ find other t
unfolding find put
other_find-put name other set [] d = rw d refl
other_find-put name other set ((key, old) ∷ rest) d = elim (Bool-cases (bytes_eq key name)) [
  | inl e ↦
      let k : bytes_eq key other ≡ false =
        ap (λ b. bytes_eq b other) (bytes_eq_eq key name e) ∙ d in
      rw (put, e) (rw (find, k) refl)
  | inr e ↦ elim (Bool-cases (bytes_eq key other)) [
    | inl o ↦ rw (put, e) (rw (find, o) refl)
    | inr o ↦ rw (put, e) (rw (find, o) (other_find-put name other set rest d))
  ]
]

-- What a declaration does: it succeeds exactly if nothing of that name clashes, and then the symbol is the last of its
-- name; else the overloads stay. Other names and the parents stay.
pub record Declared (name : Bytes) (new : Symbol) (s : Scope) : Type 0 where
  pub accepts :
      ((declare name new s).0 ≡ true) ↔ (clashes_any new (overloads name s.symbols) ≡ false)
  pub own :
      find name (declare name new s).1.symbols
      ≡ some (
          if (declare name new s).0
          then overloads name s.symbols ++ new ∷ []
          else overloads name s.symbols)
  pub others :
      (other : Bytes)
      → bytes_eq name other ≡ false
      → find other (declare name new s).1.symbols ≡ find other s.symbols
  pub parents : (declare name new s).1.parents ≡ s.parents

pub declare-Declared : (name : Bytes) (new : Symbol) (s : Scope) → Declared name new s
unfolding declare
declare-Declared name new s =
    let set = overloads name s.symbols in
    elim (Bool-cases (clashes_any new set)) [
      | inl c ↦ record {
        accepts = rw c (λ h. absurd (cc), λ h. absurd (cc));
        own = rw c (find-put name set s.symbols);
        others = λ other d. rw c (other_find-put name other set s.symbols d);
        parents = rw c refl;
      }
      | inr c ↦ record {
        accepts = rw c (λ h. refl, λ h. refl);
        own = rw c (find-put name (set ++ new ∷ []) s.symbols);
        others = λ other d. rw c (other_find-put name other (set ++ new ∷ []) s.symbols d);
        parents = rw c refl;
      }
    ]

-- No two declarations of one list clash, a later one being the new one.
abbrev pub ClashFree : List Symbol → Type 0
ClashFree [] = Unit
ClashFree (s ∷ rest) = All (λ new. clashes new s ≡ false) rest × ClashFree rest

-- A scope in which no name has two declarations that clash.
abbrev pub IsClashFree : Scope → Type 0
IsClashFree s = (name : Bytes) → ClashFree (overloads name s.symbols)

first-snoc :
    (set : List Symbol) (new : Symbol) (outer : Option Symbol)
    → first_of (some (set ++ new ∷ [])) outer ≡ first_of (some set) (some new)
unfolding first_of
first-snoc [] new outer = refl
first-snoc (s ∷ rest) new outer = refl

first-clash :
    (set : List Symbol) (new : Symbol) (outer : Option Symbol)
    → clashes_any new set ≡ true
    → first_of (some set) outer ≡ first_of (some set) (some new)
unfolding first_of clashes_any
first-clash [] new outer h = absurd (cc)
first-clash (s ∷ rest) new outer h = refl

-- After a declaration, the name stands for its first declaration in the scope, which is the new symbol if it had none
-- there, whatever the parents say. Other names stand for what they stood for.
pub lookup-declare :
    (name other : Bytes) (new : Symbol) (s : Scope)
    → (lookup name (declare name new s).1 ≡ first_of (some (overloads name s.symbols)) (some new))
      × (bytes_eq name other ≡ false → lookup other (declare name new s).1 ≡ lookup other s)
unfolding lookup lookup_in
lookup-declare name other new s =
    let d = declare-Declared name new s in
    let set = overloads name s.symbols in
    let outer = lookup_in name (declare name new s).1.parents in
    (
      ap (λ f. first_of f outer) d.own ∙ elim (Bool-cases (declare name new s).0) [
        | inl a ↦ rw a (first-snoc set new outer)
        | inr a ↦ rw a (
            first-clash set new outer
              (rejected (clashes_any new set) (declare name new s).0 d.accepts a))
      ],
      λ o. ap₂ (λ f p. first_of f (lookup_in other p)) (d.others other o) d.parents,
    )
  where
    rejected : (c a : Bool) → ((a ≡ true) ↔ (c ≡ false)) → a ≡ false → c ≡ true
    rejected true a h e = refl
    rejected false a h e = let t = h.1 refl in absurd (cc)
