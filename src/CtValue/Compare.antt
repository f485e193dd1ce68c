-- ===== src/CtValue/Compare.antt =====
-- src/ast/CtValue.cpp: the comparisons of `ctBinary` on integers, against the order of the values.
use my_llvm_c.Prelude.{
  ℕ, ◌+◌, ◌%◌, ◌^◌, ◌<◌, ◌≡◌, refl, ◌∙◌, ap, ap₂, inl, inr, Bool, true, false, not, ltb, leb, ◌==◌,
  if◌then◌else◌, arith, Option, none, some,
}
use my_llvm_c.CtValue.Word.{word, mask_for, masked, flip_sign, sign_extend, signed_lt}
use my_llvm_c.Operators.{BinaryOp, op_eq, op_not_eq, op_lt, op_gt, op_le, op_ge}
use my_llvm_c.CtValue.Binary.{is_comparison_op, below, compare_ints, as_bool, int_binary_in}
use my_llvm_c.CtValue.Wrap.{IsWidth, is_extended}
use my_llvm_c.CtValue.Arithmetic.{masked-width, width-64}

-- The value of a pattern, shifted by 2 ^ 63 if it is signed, so that it is not negative.
unfoldable pub rank : Bool → ℕ → ℕ
rank true v = v
rank false v = (v + 2 ^ 63) % word

-- An extended pattern is restored from its low bits.
unsigned-restored : (bits v : ℕ) → is_extended bits true v ≡ true → IsWidth bits → v % 2 ^ bits ≡ v
unfolding is_extended
unsigned-restored bits v h (inl e) = ground arith
unsigned-restored bits v h (inr (inl e)) = ground arith
unsigned-restored bits v h (inr (inr (inl e))) = ground arith
unsigned-restored bits v h (inr (inr (inr (inl e)))) = ground arith
unsigned-restored bits v h (inr (inr (inr (inr e)))) = ground arith

signed-restored :
    (bits v : ℕ)
    → is_extended bits false v ≡ true
    → v < word
    → IsWidth bits
    → sign_extend (v % 2 ^ bits) bits ≡ v
unfolding is_extended sign_extend masked mask_for flip_sign
signed-restored bits v h k (inl e) = rw e (restored (rw e at h))
  where
    restored : is_extended 1 false v ≡ true → sign_extend (v % 2 ^ 1) 1 ≡ v
    restored h = ground arith
signed-restored bits v h k (inr (inl e)) = rw e (restored (rw e at h))
  where
    restored : is_extended 8 false v ≡ true → sign_extend (v % 2 ^ 8) 8 ≡ v
    restored h = ground arith
signed-restored bits v h k (inr (inr (inl e))) = rw e (restored (rw e at h))
  where
    restored : is_extended 16 false v ≡ true → sign_extend (v % 2 ^ 16) 16 ≡ v
    restored h = ground arith
signed-restored bits v h k (inr (inr (inr (inl e)))) = rw e (restored (rw e at h))
  where
    restored : is_extended 32 false v ≡ true → sign_extend (v % 2 ^ 32) 32 ≡ v
    restored h = ground arith
signed-restored bits v h k (inr (inr (inr (inr e)))) = rw e (restored (rw e at h))
  where
    restored : is_extended 64 false v ≡ true → sign_extend (v % 2 ^ 64) 64 ≡ v
    restored h = ground arith

flip_sign-rank : (v : ℕ) → v < word → flip_sign v (2 ^ 63) ≡ rank false v
unfolding flip_sign rank
flip_sign-rank v h = ground arith

-- The two orders, and the two equalities.
below-rank :
    (bits : ℕ) (u : Bool) (l r : ℕ)
    → IsWidth bits
    → is_extended bits u l ≡ true
    → is_extended bits u r ≡ true
    → l < word
    → r < word
    → below bits u (masked l bits) (masked r bits) ≡ ltb (rank u l) (rank u r)
unfolding below signed_lt rank
below-rank bits true l r w hl hr kl kr =
    ap₂ ltb (masked-width l bits w ∙ unsigned-restored bits l hl w)
      (masked-width r bits w ∙ unsigned-restored bits r hr w)
below-rank bits false l r w hl hr kl kr =
    ap₂ signed_lt
      (ap (λ v. sign_extend v bits) (masked-width l bits w) ∙ signed-restored bits l hl kl w)
      (ap (λ v. sign_extend v bits) (masked-width r bits w) ∙ signed-restored bits r hr kr w)
    ∙ ap₂ ltb (flip_sign-rank l kl) (flip_sign-rank r kr)

same-rank :
    (bits : ℕ) (u : Bool) (l r : ℕ)
    → IsWidth bits
    → is_extended bits u l ≡ true
    → is_extended bits u r ≡ true
    → l < word
    → r < word
    → (if u
        then masked l bits == masked r bits
        else sign_extend (masked l bits) bits == sign_extend (masked r bits) bits)
      ≡ (rank u l == rank u r)
unfolding rank
same-rank bits true l r w hl hr kl kr =
    ap₂ (λ a b. a == b) (masked-width l bits w ∙ unsigned-restored bits l hl w)
      (masked-width r bits w ∙ unsigned-restored bits r hr w)
same-rank bits false l r w hl hr kl kr =
    ap₂ (λ a b. a == b)
      (ap (λ v. sign_extend v bits) (masked-width l bits w) ∙ signed-restored bits l hl kl w)
      (ap (λ v. sign_extend v bits) (masked-width r bits w) ∙ signed-restored bits r hr kr w)
    ∙ shifted
  where
    shifted : (l == r) ≡ ((l + 2 ^ 63) % word == (r + 2 ^ 63) % word)
    shifted = ground arith

not-ltb : (a b : ℕ) → not (ltb a b) ≡ leb b a
not-ltb a b = ground arith

-- The comparison of two numbers that an operator stands for.
unfoldable pub compares : BinaryOp → ℕ → ℕ → Option Bool
compares op_eq a b = some (a == b)
compares op_not_eq a b = some (not (a == b))
compares op_lt a b = some (ltb a b)
compares op_gt a b = some (ltb b a)
compares op_le a b = some (leb a b)
compares op_ge a b = some (leb b a)
compares _ a b = none

module _ (bits : ℕ) (u : Bool) (l r : ℕ) (w : IsWidth bits) (hl : is_extended bits u l ≡ true)
    (hr : is_extended bits u r ≡ true) (kl : l < word) (kr : r < word) where
  compare_ints-rank :
      (op : BinaryOp)
      → compare_ints op bits u (masked l bits) (masked r bits) ≡ compares op (rank u l) (rank u r)
  unfolding compare_ints compares
  compare_ints-rank op_eq = ap some (same-rank bits u l r w hl hr kl kr)
  compare_ints-rank op_not_eq = ap (λ b. some (not b)) (same-rank bits u l r w hl hr kl kr)
  compare_ints-rank op_lt = ap some (below-rank bits u l r w hl hr kl kr)
  compare_ints-rank op_gt = ap some (below-rank bits u r l w hr hl kr kl)
  compare_ints-rank op_le =
      ap some (ap not (below-rank bits u r l w hr hl kr kl) ∙ not-ltb (rank u r) (rank u l))
  compare_ints-rank op_ge =
      ap some (ap not (below-rank bits u l r w hl hr kl kr) ∙ not-ltb (rank u l) (rank u r))
  compare_ints-rank op = refl

  compare-runs :
      (op : BinaryOp)
      → is_comparison_op op ≡ true
      → int_binary_in op (bits, u) l r
        ≡ as_bool (compare_ints op bits u (masked l bits) (masked r bits))
  unfolding int_binary_in
  compare-runs op c = rw (width-64 bits w, c) refl

-- The comparisons of two extended operands of the operation's width compare their values: as they are if the operation
-- is unsigned, and in two's complement if it is signed.
pub int_binary_in-compares :
    (bits : ℕ) (u : Bool) (l r : ℕ) (op : BinaryOp)
    → IsWidth bits
    → is_extended bits u l ≡ true
    → is_extended bits u r ≡ true
    → l < word
    → r < word
    → is_comparison_op op ≡ true
    → int_binary_in op (bits, u) l r ≡ as_bool (compares op (rank u l) (rank u r))
int_binary_in-compares bits u l r op w hl hr kl kr c =
    compare-runs bits u l r w hl hr kl kr op c
    ∙ ap as_bool (compare_ints-rank bits u l r w hl hr kl kr op)
