-- ===== src/CtValue/Arithmetic.antt =====
-- src/ast/CtValue.cpp: `ctNormalizeInt` and the integer part of `ctBinary`, against arithmetic without bounds.
use native.Mathlib.Nat.{add-mul-mod_self_left, mod-add-div, mul_comm, add-mul, mul_assoc}
use my_llvm_c.Prelude.{
  ℕ, ◌+◌, ◌-◌, ◌*◌, ◌/◌, ◌%◌, ◌^◌, ◌<◌, ◌≡◌, refl, sym, ◌∙◌, ap, inl, inr, Bool, true, false, ltb,
  arith, some,
}
use my_llvm_c.CtValue.Word.{word, mask_for, masked, CtInt, clamp_bits, ct_normalize_int}
use my_llvm_c.Operators.{BinaryOp, op_add, op_sub, op_mul}
use my_llvm_c.CtValue.Binary.{is_comparison_op, arithmetic, normalized, int_binary_in}
use my_llvm_c.CtValue.Wrap.{IsWidth, Wraps, unsigned-Wraps, signed-Wraps}

-- A factor may be reduced before a product is.
mul-mod_factor : (a b m : ℕ) → (a % m * b) % m ≡ (a * b) % m
mul-mod_factor a b m =
    sym (add-mul-mod_self_left (a % m * b) m (a / m * b))
    ∙ ap (λ x. x % m)
        (ap (λ x. a % m * b + x) (sym (mul_assoc m (a / m) b))
          ∙ sym (add-mul (a % m) (m * (a / m)) b)
          ∙ ap (λ x. x * b) (mod-add-div a m))

mul-mod_factors : (a b m : ℕ) → (a % m * (b % m)) % m ≡ (a * b) % m
mul-mod_factors a b m =
    mul-mod_factor a (b % m) m
    ∙ ap (λ x. x % m) (mul_comm a (b % m))
    ∙ mul-mod_factor b a m
    ∙ ap (λ x. x % m) (mul_comm b a)

module _ (bits : ℕ) (w : IsWidth bits) where
  clamp_width : clamp_bits bits ≡ bits
  unfolding clamp_bits
  clamp_width = ground arith

  pub width-64 : ltb 64 bits ≡ false
  width-64 = ground arith

-- What the wrapped operand is, and that a remainder of a word wraps like the word.
pub masked-width : (raw bits : ℕ) → IsWidth bits → masked raw bits ≡ raw % 2 ^ bits
unfolding masked mask_for
masked-width raw bits (inl e) = rw e refl
masked-width raw bits (inr (inl e)) = rw e refl
masked-width raw bits (inr (inr (inl e))) = rw e refl
masked-width raw bits (inr (inr (inr (inl e)))) = rw e refl
masked-width raw bits (inr (inr (inr (inr e)))) = rw e refl

word-width : (a bits : ℕ) → IsWidth bits → a % word % 2 ^ bits ≡ a % 2 ^ bits
word-width a bits (inl e) = rw e (omega arith)
word-width a bits (inr (inl e)) = rw e (omega arith)
word-width a bits (inr (inr (inl e))) = rw e (omega arith)
word-width a bits (inr (inr (inr (inl e)))) = rw e (omega arith)
word-width a bits (inr (inr (inr (inr e)))) = rw e (omega arith)

-- The bits above the width do not matter for a sum and a difference.
sum-width :
    (l r bits : ℕ) → IsWidth bits → (l % 2 ^ bits + r % 2 ^ bits) % 2 ^ bits ≡ (l + r) % 2 ^ bits
sum-width l r bits (inl e) = rw e (omega arith)
sum-width l r bits (inr (inl e)) = rw e (omega arith)
sum-width l r bits (inr (inr (inl e))) = rw e (omega arith)
sum-width l r bits (inr (inr (inr (inl e)))) = rw e (omega arith)
sum-width l r bits (inr (inr (inr (inr e)))) = rw e (omega arith)

difference-width :
    (l r bits : ℕ)
    → r < word
    → IsWidth bits
    → (l % 2 ^ bits + (word - r % 2 ^ bits)) % 2 ^ bits ≡ (l + (word - r)) % 2 ^ bits
difference-width l r bits h (inl e) = rw e (omega arith)
difference-width l r bits h (inr (inl e)) = rw e (omega arith)
difference-width l r bits h (inr (inr (inl e))) = rw e (omega arith)
difference-width l r bits h (inr (inr (inr (inl e)))) = rw e (omega arith)
difference-width l r bits h (inr (inr (inr (inr e)))) = rw e (omega arith)

-- `ctNormalizeInt` wraps a word to a width: the result has the low bits of the word, and above them zeros, or copies of
-- the sign if it is signed.
pub ct_normalize_int-Wraps :
    (raw bits : ℕ) (is_unsigned is_bool : Bool)
    → raw < word
    → IsWidth bits
    → Wraps raw bits is_unsigned (ct_normalize_int raw bits is_unsigned is_bool).int_val
unfolding ct_normalize_int
ct_normalize_int-Wraps raw bits true is_bool h w =
    rw (clamp_width bits w) (unsigned-Wraps raw bits w)
ct_normalize_int-Wraps raw bits false is_bool h w =
    rw (clamp_width bits w) (signed-Wraps raw bits h w)

-- An operation gives a value of the operation's width and signedness that wraps `exact`.
abbrev pub Gives : BinaryOp → ℕ → Bool → ℕ → ℕ → ℕ → Type 0
Gives op bits is_unsigned l r exact =
    (v : CtInt) × (int_binary_in op (bits, is_unsigned) l r ≡ some v)
    × Wraps exact bits is_unsigned v.int_val
    × (v.bits ≡ bits)
    × (v.is_unsigned ≡ is_unsigned)

bits-normalize :
    (raw bits : ℕ) (u b : Bool) → IsWidth bits → (ct_normalize_int raw bits u b).bits ≡ bits
unfolding ct_normalize_int
bits-normalize raw bits u b w = clamp_width bits w

sign-normalize : (raw bits : ℕ) (u b : Bool) → (ct_normalize_int raw bits u b).is_unsigned ≡ u
unfolding ct_normalize_int
sign-normalize raw bits u b = refl

normalized-Gives :
    (op : BinaryOp) (bits : ℕ) (is_unsigned : Bool) (l r raw exact : ℕ)
    → IsWidth bits
    → int_binary_in op (bits, is_unsigned) l r ≡ some (ct_normalize_int raw bits is_unsigned false)
    → raw < word
    → raw % 2 ^ bits ≡ exact % 2 ^ bits
    → Gives op bits is_unsigned l r exact
normalized-Gives op bits is_unsigned l r raw exact w e h m =
    let (low, extended, small) = ct_normalize_int-Wraps raw bits is_unsigned false h w in
    (
      ct_normalize_int raw bits is_unsigned false,
      e,
      (low ∙ m, extended, small),
      bits-normalize raw bits is_unsigned false w,
      sign-normalize raw bits is_unsigned false,
    )

module _ (bits : ℕ) (is_unsigned : Bool) (l r : ℕ) (w : IsWidth bits) where
  add-runs :
      int_binary_in op_add (bits, is_unsigned) l r
      ≡ some (ct_normalize_int ((l % 2 ^ bits + r % 2 ^ bits) % word) bits is_unsigned false)
  unfolding int_binary_in arithmetic normalized is_comparison_op
  add-runs = rw (width-64 bits w, masked-width l bits w, masked-width r bits w) refl

  sub-runs :
      int_binary_in op_sub (bits, is_unsigned) l r
      ≡ some
          (ct_normalize_int ((l % 2 ^ bits + (word - r % 2 ^ bits)) % word) bits is_unsigned false)
  unfolding int_binary_in arithmetic normalized is_comparison_op
  sub-runs = rw (width-64 bits w, masked-width l bits w, masked-width r bits w) refl

  mul-runs :
      int_binary_in op_mul (bits, is_unsigned) l r
      ≡ some (ct_normalize_int ((l % 2 ^ bits * (r % 2 ^ bits)) % word) bits is_unsigned false)
  unfolding int_binary_in arithmetic normalized is_comparison_op
  mul-runs = rw (width-64 bits w, masked-width l bits w, masked-width r bits w) refl

-- Sums, differences and products wrap: the low bits of the result are those of the exact sum, difference (up to a multiple
-- of 2 ^ 64) and product of the operands, and above them the result is zero, or its sign copied if the operation is signed.
pub int_binary_in-Gives :
    (bits : ℕ) (is_unsigned : Bool) (l r : ℕ)
    → IsWidth bits
    → r < word
    → Gives op_add bits is_unsigned l r (l + r)
      × Gives op_sub bits is_unsigned l r (l + (word - r))
      × Gives op_mul bits is_unsigned l r (l * r)
int_binary_in-Gives bits u l r w h = (
  normalized-Gives op_add bits u l r _ (l + r) w (add-runs bits u l r w) (omega arith)
      (word-width (l % 2 ^ bits + r % 2 ^ bits) bits w ∙ sum-width l r bits w),
  normalized-Gives op_sub bits u l r _ (l + (word - r)) w (sub-runs bits u l r w) (omega arith)
      (word-width (l % 2 ^ bits + (word - r % 2 ^ bits)) bits w ∙ difference-width l r bits h w),
  normalized-Gives op_mul bits u l r _ (l * r) w (mul-runs bits u l r w)
      (word-lt (l % 2 ^ bits * (r % 2 ^ bits)))
      (word-width (l % 2 ^ bits * (r % 2 ^ bits)) bits w ∙ mul-mod_factors l r (2 ^ bits)),
)
  where
    word-lt : (x : ℕ) → x % word < word
    word-lt x = omega arith
