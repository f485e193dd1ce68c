-- ===== src/Symbols/Overload/Unique.antt =====
-- src/ast/Symbol.cpp: the candidate that `OverloadSet::resolve` gives, against the least rank.
use my_llvm_c.Prelude.{
  ℕ, ◌<◌, ◌≡◌, ◌⊎◌, inl, inr, refl, sym, ap, subst, ◌∙◌, Bool, true, false, ◌&&◌, ◌||◌, List, [],
  ◌∷◌, ◌++◌, append_assoc, append-nil, Option, none, some, ltb, ◌==◌, Bool-cases, Option-cases, All,
  All-append, All-map, arith,
}
use mathlib.Core.Option.{some-injective}
use my_llvm_c.Types.{AstTypes}
use my_llvm_c.Symbols.{Symbol}
use my_llvm_c.Symbols.Overload.{
  Best, Search, start, found, score, default_count, function_rank, compare_best, place, consider,
  consider_all,
}

-- Better by a lower rank, or by fewer default arguments at the same rank.
abbrev pub Better : Best → Best → Type 0
Better b c = (b.rank < c.rank) ⊎ ((b.rank ≡ c.rank) × (b.defaults < c.defaults))

abbrev pub Alike : Best → Best → Type 0
Alike b c = (b.rank ≡ c.rank) × (b.defaults ≡ c.defaults)

-- A candidate that is not viable, or is worse than `b`.
abbrev pub Loses : AstTypes → Best → Symbol → Type 0
Loses args b c = (d : Best) → score args c ≡ some d → Better b d

-- One viable candidate is better than all the others.
pub record UniqueBest (args : AstTypes) (candidates : List Symbol) (s : Symbol) : Type 0 where
  pub before : List Symbol
  pub after : List Symbol
  pub split : candidates ≡ before ++ s ∷ after
  pub key : Best
  pub viable : score args s ≡ some key
  pub loses_before : All (Loses args key) before
  pub loses_after : All (Loses args key) after

-- The three outcomes of a comparison.
pub data Compared (b old : Best) (ambiguous : Bool) (s : Search) : Type 0 where
  wins : Better b old → s ≡ found b → Compared b old ambiguous s
  ties : Alike b old → s ≡ record { best = some old; ambiguous = true } → Compared b old ambiguous s
  loses :
      Better old b
      → s ≡ record { best = some old; ambiguous = ambiguous }
      → Compared b old ambiguous s

pub compare_best-Compared : (b old : Best) (a : Bool) → Compared b old a (compare_best b old a)
unfolding compare_best
compare_best-Compared b old a =
    elim (Bool-cases (ltb b.rank old.rank || (b.rank == old.rank && ltb b.defaults old.defaults))) [
      | inl w ↦ wins (better b.rank old.rank b.defaults old.defaults w) (rw w refl)
      | inr w ↦ elim (Bool-cases (b.rank == old.rank && b.defaults == old.defaults)) [
        | inl t ↦ ties (alike b.rank old.rank b.defaults old.defaults t) (rw (w, t) refl)
        | inr t ↦ loses (worse b.rank old.rank b.defaults old.defaults w t) (rw (w, t) refl)
      ]
    ]
  where
    better : (r s d e : ℕ) → (ltb r s || (r == s && ltb d e)) ≡ true → (r < s) ⊎ ((r ≡ s) × (d < e))
    better r s d e h = ground arith

    alike : (r s d e : ℕ) → (r == s && d == e) ≡ true → (r ≡ s) × (d ≡ e)
    alike r s d e h = (ground arith, ground arith)

    worse :
        (r s d e : ℕ)
        → (ltb r s || (r == s && ltb d e)) ≡ false
        → (r == s && d == e) ≡ false
        → (s < r) ⊎ ((s ≡ r) × (e < d))
    worse r s d e h k = ground arith

abbrev pub NotViable : AstTypes → Symbol → Type 0
NotViable args c = score args c ≡ none

abbrev pub AtMost : AstTypes → Best → Symbol → Type 0
AtMost args b c = (d : Best) → score args c ≡ some d → Better b d ⊎ Alike b d

-- What the search knows of the candidates it has seen.
pub data Knows (args : AstTypes) (done : List Symbol) (s : Search) : Type 0 where
  nothing : s ≡ start → All (NotViable args) done → Knows args done s
  unique :
      (b : Best) (u : UniqueBest args done b.symbol) → u.key ≡ b → s ≡ found b → Knows args done s
  tied :
      (b : Best)
      → s ≡ record { best = some b; ambiguous = true }
      → All (AtMost args b) done
      → Knows args done s

Better-trans : (b c d : Best) → Better b c → Better c d ⊎ Alike c d → Better b d
Better-trans b c d h k = orders b.rank c.rank d.rank b.defaults c.defaults d.defaults h k
  where
    orders :
        (p q r x y z : ℕ)
        → (p < q) ⊎ ((p ≡ q) × (x < y))
        → ((q < r) ⊎ ((q ≡ r) × (y < z))) ⊎ ((q ≡ r) × (y ≡ z))
        → (p < r) ⊎ ((p ≡ r) × (x < z))
    orders p q r x y z (inl h) (inl (inl k)) = inl (omega (arith, h, k))
    orders p q r x y z (inl h) (inl (inr k)) = inl (omega (arith, h, k.0))
    orders p q r x y z (inl h) (inr k) = inl (omega (arith, h, k.0))
    orders p q r x y z (inr h) (inl (inl k)) = inl (omega (arith, h.0, k))
    orders p q r x y z (inr h) (inl (inr k)) =
        inr (omega (arith, h.0, k.0), omega (arith, h.1, k.1))
    orders p q r x y z (inr h) (inr k) = inr (omega (arith, h.0, k.0), omega (arith, h.1, k.1))

module _ (args : AstTypes) where
  pub score-symbol : (c : Symbol) (d : Best) → score args c ≡ some d → d.symbol ≡ c
  score-symbol c d e = scored (function_rank args (default_count c) c.type) (default_count c) e
    where
      scored :
          (o : Option ℕ) (n : ℕ)
          → (elim o [ none ↦ none | some r ↦ some (record { symbol = c; rank = r; defaults = n }) ])
            ≡ some d
          → d.symbol ≡ c
      scored none n e = absurd (cc)
      scored (some r) n e =
          sym (
            ap (λ b. b.symbol) (some-injective (record { symbol = c; rank = r; defaults = n }) d e))

  none-Loses : (b : Best) (c : Symbol) → NotViable args c → Loses args b c
  none-Loses b c n d e = absurd (cc)

  none-AtMost : (b : Best) (c : Symbol) → NotViable args c → AtMost args b c
  none-AtMost b c n d e = absurd (cc)

  one-Loses : (b d : Best) (c : Symbol) → score args c ≡ some d → Better b d → Loses args b c
  one-Loses b d c e l d' e' = subst (Better b) (some-injective d d' (sym e ∙ e')) l

  one-AtMost :
      (b d : Best) (c : Symbol) → score args c ≡ some d → Better b d ⊎ Alike b d → AtMost args b c
  one-AtMost b d c e l d' e' =
      subst (λ x. Better b x ⊎ Alike b x) (some-injective d d' (sym e ∙ e')) l

  -- A candidate behind the others that loses against the one chosen.
  extend :
      (done : List Symbol) (c s : Symbol) (u : UniqueBest args done s)
      → Loses args u.key c
      → UniqueBest args (done ++ c ∷ []) s
  extend done c s u l = record {
    before = u.before;
    after = u.after ++ c ∷ [];
    split = ap (λ l. l ++ c ∷ []) u.split ∙ append_assoc u.before (s ∷ u.after) (c ∷ []);
    key = u.key;
    viable = u.viable;
    loses_before = u.loses_before;
    loses_after = All-append (Loses args u.key) u.after (c ∷ []) u.loses_after (l, tt);
  }

  -- A candidate behind the others that beats all of them.
  take_lead :
      (done : List Symbol) (c : Symbol) (d : Best)
      → score args c ≡ some d
      → All (Loses args d) done
      → (s : Search) → s ≡ found d
      → Knows args (done ++ c ∷ []) s
  take_lead done c d e h s f =
      let same = score-symbol c d e in
      unique d
        record {
          before = done;
          after = [];
          split = ap (λ x. done ++ x ∷ []) (sym same);
          key = d;
          viable = ap (score args) same ∙ e;
          loses_before = h;
          loses_after = tt;
        }
        refl f

  unique-AtMost :
      (done : List Symbol) (b : Best) (u : UniqueBest args done b.symbol)
      → u.key ≡ b
      → All (AtMost args b) done
  unique-AtMost done b u k = subst (All (AtMost args b)) (sym u.split) (
      All-append (AtMost args b) u.before (b.symbol ∷ u.after)
        (All-map (Loses args u.key) (AtMost args b) u.before (weaken k) u.loses_before)
        (
          one-AtMost b u.key b.symbol u.viable (inr (same k)),
          All-map (Loses args u.key) (AtMost args b) u.after (weaken k) u.loses_after,
        ))
    where
      weaken : u.key ≡ b → (c : Symbol) → Loses args u.key c → AtMost args b c
      weaken k c l d e = inl (subst (λ x. Better x d) k (l d e))

      same : u.key ≡ b → Alike b u.key
      same k = (sym (ap (λ x. x.rank) k), sym (ap (λ x. x.defaults) k))

  -- A round of the loop.
  place-Knows :
      (done : List Symbol) (c : Symbol) (d : Best) (s : Search)
      → score args c ≡ some d
      → Knows args done s
      → Knows args (done ++ c ∷ []) (place d s)
  unfolding place extend
  place-Knows done c d s e (nothing f h) = rw f (
      take_lead done c d e (All-map (NotViable args) (Loses args d) done (none-Loses d) h) (found d)
        refl)
  place-Knows done c d s e (unique b u k f) = rw f (against (compare_best-Compared d b false))
    where
      against :
          Compared d b false (compare_best d b false)
          → Knows args (done ++ c ∷ []) (compare_best d b false)
      against (wins w g) =
          take_lead done c d e
            (All-map (AtMost args b) (Loses args d) done (λ x m y q. Better-trans d b y w (m y q))
              (unique-AtMost done b u k))
            (compare_best d b false) g
      against (ties t g) = tied b g (
          All-append (AtMost args b) done (c ∷ []) (unique-AtMost done b u k)
            (one-AtMost b d c e (inr (sym t.0, sym t.1)), tt))
      against (loses l g) =
          unique b
            (extend done c b.symbol u (subst (λ x. Loses args x c) (sym k) (one-Loses b d c e l))) k
            g
  place-Knows done c d s e (tied b f h) = rw f (against (compare_best-Compared d b true))
    where
      against :
          Compared d b true (compare_best d b true)
          → Knows args (done ++ c ∷ []) (compare_best d b true)
      against (wins w g) =
          take_lead done c d e
            (All-map (AtMost args b) (Loses args d) done (λ x m y q. Better-trans d b y w (m y q))
              h)
            (compare_best d b true) g
      against (ties t g) = tied b g (
          All-append (AtMost args b) done (c ∷ []) h
            (one-AtMost b d c e (inr (sym t.0, sym t.1)), tt))
      against (loses l g) =
          tied b g (All-append (AtMost args b) done (c ∷ []) h (one-AtMost b d c e (inl l), tt))

  consider-Knows :
      (done : List Symbol) (c : Symbol) (s : Search)
      → Knows args done s
      → Knows args (done ++ c ∷ []) (consider args s c)
  unfolding extend consider
  consider-Knows done c s h = elim (Option-cases (score args c)) [
    | inr (d, e) ↦ rw (consider, e) (place-Knows done c d s e h)
    | inl n ↦ rw (consider, n) (passes n h)
  ]
    where
      passes : NotViable args c → Knows args done s → Knows args (done ++ c ∷ []) s
      passes n (nothing f h) = nothing f (All-append (NotViable args) done (c ∷ []) h (n, tt))
      passes n (unique b u k f) = unique b (extend done c b.symbol u (none-Loses u.key c n)) k f
      passes n (tied b f h) =
          tied b f (All-append (AtMost args b) done (c ∷ []) h (none-AtMost b c n, tt))

  pub consider_all-Knows :
      (done rest : List Symbol) (s : Search)
      → Knows args done s
      → Knows args (done ++ rest) (consider_all args s rest)
  unfolding consider_all
  consider_all-Knows done [] s h = subst (λ l. Knows args l s) (sym (append-nil done)) h
  consider_all-Knows done (c ∷ rest) s h =
      subst (λ l. Knows args l (consider_all args (consider args s c) rest))
        (append_assoc done (c ∷ []) rest)
        (consider_all-Knows (done ++ c ∷ []) rest (consider args s c) (consider-Knows done c s h))
