-- ===== src/Symbols/Overload/Chosen.antt =====
-- src/ast/Symbol.cpp: `OverloadSet::resolve` gives the best candidate exactly if there is one.
use my_llvm_c.Prelude.{
  ℕ, ◌<◌, ◌≡◌, ◌⊎◌, ◌↔◌, inl, inr, refl, sym, ap, subst, ◌∙◌, false, List, [], ◌∷◌, ◌++◌, Option,
  none, some, Option-cases, All, arith,
}
use mathlib.Core.Option.{some-injective}
use my_llvm_c.Types.{AstTypes}
use my_llvm_c.Symbols.{Symbol}
use my_llvm_c.Symbols.Overload.{
  Best, Search, start, found, score, compare_best, place, consider, consider_all, answer, resolve,
}
use my_llvm_c.Symbols.Overload.Unique.{
  Better, Loses, UniqueBest, Compared, wins, ties, loses, compare_best-Compared, Knows, nothing,
  unique, tied, consider_all-Knows, score-symbol,
}

-- The best candidate so far, if any, is worse than `k`.
abbrev Behind : Best → Search → Type 0
Behind k s = (b : Best) → s.best ≡ some b → Better k b

Better-irrefl :
    (k b : Best) → Better k b → Better b k ⊎ ((b.rank ≡ k.rank) × (b.defaults ≡ k.defaults)) → ⊥
Better-irrefl k b h l = orders k.rank b.rank k.defaults b.defaults h l
  where
    orders :
        (p q x y : ℕ)
        → (p < q) ⊎ ((p ≡ q) × (x < y))
        → ((q < p) ⊎ ((q ≡ p) × (y < x))) ⊎ ((q ≡ p) × (y ≡ x))
        → ⊥
    orders p q x y (inl h) (inl (inl k)) = omega (arith, h, k)
    orders p q x y (inl h) (inl (inr k)) = omega (arith, h, k.0)
    orders p q x y (inl h) (inr k) = omega (arith, h, k.0)
    orders p q x y (inr h) (inl (inl k)) = omega (arith, h.0, k)
    orders p q x y (inr h) (inl (inr k)) = omega (arith, h.1, k.1)
    orders p q x y (inr h) (inr k) = omega (arith, h.1, k.1)

module _ (args : AstTypes) where
  place-Behind : (k d : Best) (s : Search) → Behind k s → Better k d → Behind k (place d s)
  unfolding place
  place-Behind k d s h l = cases s.best refl
    where
      here : (b : Best) → some d ≡ some b → Better k b
      here b e = subst (Better k) (some-injective d b e) l

      old_stays : (old b : Best) → s.best ≡ some old → some old ≡ some b → Better k b
      old_stays old b f e = h b (f ∙ e)

      after :
          (old : Best) (t : Search) → s.best ≡ some old → Compared d old s.ambiguous t → Behind k t
      after old t f (wins w g) b e = here b (sym (ap (λ x. x.best) g) ∙ e)
      after old t f (ties w g) b e = old_stays old b f (sym (ap (λ x. x.best) g) ∙ e)
      after old t f (loses w g) b e = old_stays old b f (sym (ap (λ x. x.best) g) ∙ e)

      cases : (o : Option Best) → s.best ≡ o → Behind k (place d s)
      cases none f = rw (place, f) here
      cases (some old) f =
          rw (place, f)
            (after old (compare_best d old s.ambiguous) f (compare_best-Compared d old s.ambiguous))

  consider-Behind :
      (k : Best) (c : Symbol) (s : Search)
      → Behind k s
      → Loses args k c
      → Behind k (consider args s c)
  unfolding consider
  consider-Behind k c s h l = elim (Option-cases (score args c)) [
    | inl n ↦ rw (consider, n) h
    | inr (d, e) ↦ rw (consider, e) (place-Behind k d s h (l d e))
  ]

  consider_all-Behind :
      (k : Best) (cs : List Symbol) (s : Search)
      → Behind k s
      → All (Loses args k) cs
      → Behind k (consider_all args s cs)
  unfolding consider_all
  consider_all-Behind k [] s h l = h
  consider_all-Behind k (c ∷ cs) s h l =
      consider_all-Behind k cs (consider args s c) (consider-Behind k c s h l.0) l.1

  place-found : (k : Best) (s : Search) → Behind k s → place k s ≡ found k
  unfolding place
  place-found k s h = elim (Option-cases s.best) [
    | inl n ↦ rw (place, n) refl
    | inr (old, f) ↦
        rw (place, f)
          (first old (compare_best k old s.ambiguous) (h old f)
            (compare_best-Compared k old s.ambiguous))
  ]
    where
      first : (old : Best) (t : Search) → Better k old → Compared k old s.ambiguous t → t ≡ found k
      first old t l (wins w g) = g
      first old t l (ties w g) = absurd (Better-irrefl k old l (inr (sym w.0, sym w.1)))
      first old t l (loses w g) = absurd (Better-irrefl k old l (inl w))

  place-kept : (k d : Best) → Better k d → place d (found k) ≡ found k
  unfolding place
  place-kept k d l = kept (compare_best d k false) (compare_best-Compared d k false)
    where
      kept : (t : Search) → Compared d k false t → t ≡ found k
      kept t (wins w g) = absurd (Better-irrefl k d l (inl w))
      kept t (ties w g) = absurd (Better-irrefl k d l (inr w))
      kept t (loses w g) = g

  consider_all-found :
      (k : Best) (cs : List Symbol)
      → All (Loses args k) cs
      → consider_all args (found k) cs ≡ found k
  unfolding consider_all consider
  consider_all-found k [] l = refl
  consider_all-found k (c ∷ cs) l = elim (Option-cases (score args c)) [
    | inl n ↦ rw (consider, n) (consider_all-found k cs l.1)
    | inr (d, e) ↦ rw (consider, e) (rw (place-kept k d (l.0 d e)) (consider_all-found k cs l.1))
  ]

  consider_all-append :
      (s : Search) (xs ys : List Symbol)
      → consider_all args s (xs ++ ys) ≡ consider_all args (consider_all args s xs) ys
  unfolding consider_all
  consider_all-append s [] ys = refl
  consider_all-append s (x ∷ xs) ys = consider_all-append (consider args s x) xs ys

UniqueBest-resolve :
    (args : AstTypes) (candidates : List Symbol) (s : Symbol)
    → UniqueBest args candidates s
    → resolve args candidates ≡ some s
unfolding resolve consider_all consider
UniqueBest-resolve args candidates s u =
    let behind =
      consider_all-Behind args u.key u.before start (λ b e. absurd (cc)) u.loses_before in
    let settled : consider_all args start candidates ≡ found u.key =
      ap (consider_all args start) u.split
      ∙ consider_all-append args start u.before (s ∷ u.after)
      ∙ ap (λ t. consider_all args t u.after)
          (at_score (consider_all args start u.before) u.viable
            ∙ place-found args u.key (consider_all args start u.before) behind)
      ∙ consider_all-found args u.key u.after u.loses_after in
    ap answer settled ∙ at_key
  where
    at_score : (t : Search) → score args s ≡ some u.key → consider args t s ≡ place u.key t
    at_score t e = rw (consider, e) refl

    at_key : answer (found u.key) ≡ some s
    at_key = ap some (score-symbol args s u.key u.viable)

resolve-UniqueBest :
    (args : AstTypes) (candidates : List Symbol) (s : Symbol)
    → resolve args candidates ≡ some s
    → UniqueBest args candidates s
unfolding resolve
resolve-UniqueBest args candidates s e =
    known (consider_all args start candidates)
      (consider_all-Knows args [] candidates start (nothing refl tt)) e
  where
    no_answer : none ≡ some s → ⊥
    no_answer a = absurd (cc)

    known :
        (t : Search) → Knows args candidates t → answer t ≡ some s → UniqueBest args candidates s
    known t (nothing f h) a = absurd (no_answer (sym (ap answer f) ∙ a))
    known t (unique b u k f) a =
        subst (UniqueBest args candidates) (some-injective b.symbol s (sym (ap answer f) ∙ a)) u
    known t (tied b f h) a = absurd (no_answer (sym (ap answer f) ∙ a))

-- resolve gives a candidate exactly if it is viable for the arguments and strictly better than each other viable one:
-- of lower rank, or of the same rank with fewer default arguments. In all other cases, ambiguity included, it gives none.
pub resolve_iff :
    (args : AstTypes) (candidates : List Symbol) (s : Symbol)
    → (resolve args candidates ≡ some s) ↔ UniqueBest args candidates s
resolve_iff args candidates s =
    (resolve-UniqueBest args candidates s, UniqueBest-resolve args candidates s)
