-- ===== src/CtValue/Wrap.antt =====
-- src/ast/CtValue.cpp: patterns of a width, and the masks and sign extensions to it.
use my_llvm_c.Prelude.{
  ℕ, ◌-◌, ◌%◌, ◌^◌, ◌<◌, ◌≡◌, ◌⊎◌, inl, inr, Bool, true, false, ltb, leb, if◌then◌else◌, arith,
}
use my_llvm_c.CtValue.Word.{word, mask_for, masked, flip_sign, sign_extend}

-- The widths of `ctIntInfo` that fit in a word.
abbrev pub IsWidth : ℕ → Type 0
IsWidth bits = (bits ≡ 1) ⊎ (bits ≡ 8) ⊎ (bits ≡ 16) ⊎ (bits ≡ 32) ⊎ (bits ≡ 64)

-- A pattern of 64 bits that extends one of `bits` bits: above the width there are zeros for an unsigned
-- value, and copies of the sign for a signed one.
unfoldable pub is_extended : ℕ → Bool → ℕ → Bool
is_extended bits true v = ltb v (2 ^ bits)
is_extended bits false v = if ltb v (2 ^ (bits - 1)) then true else leb (word - 2 ^ (bits - 1)) v

-- What is wanted of a normalized value.
abbrev pub Wraps : ℕ → ℕ → Bool → ℕ → Type 0
Wraps raw bits is_unsigned v =
    (v % 2 ^ bits ≡ raw % 2 ^ bits) × (is_extended bits is_unsigned v ≡ true) × (v < word)

pub unsigned-Wraps : (raw bits : ℕ) → IsWidth bits → Wraps raw bits true (masked raw bits)
unfolding masked mask_for is_extended
unsigned-Wraps raw bits (inl e) = rw e (omega arith, ground arith, omega arith)
unsigned-Wraps raw bits (inr (inl e)) = rw e (omega arith, ground arith, omega arith)
unsigned-Wraps raw bits (inr (inr (inl e))) = rw e (omega arith, ground arith, omega arith)
unsigned-Wraps raw bits (inr (inr (inr (inl e)))) = rw e (omega arith, ground arith, omega arith)
unsigned-Wraps raw bits (inr (inr (inr (inr e)))) = rw e (omega arith, ground arith, omega arith)

pub signed-Wraps :
    (raw bits : ℕ) → raw < word → IsWidth bits → Wraps raw bits false (sign_extend raw bits)
unfolding sign_extend masked mask_for flip_sign is_extended
signed-Wraps raw bits h (inl e) = rw e (ground arith, ground arith, ground arith)
signed-Wraps raw bits h (inr (inl e)) = rw e (ground arith, ground arith, ground arith)
signed-Wraps raw bits h (inr (inr (inl e))) = rw e (ground arith, ground arith, ground arith)
signed-Wraps raw bits h (inr (inr (inr (inl e)))) = rw e (ground arith, ground arith, ground arith)
signed-Wraps raw bits h (inr (inr (inr (inr e)))) = rw e (ground arith, ground arith, ground arith)
