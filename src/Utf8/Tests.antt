-- ===== src/Utf8/Tests.antt =====
-- src/support/Utf8.cpp: runs of `valid` on short texts.
use my_llvm_c.Prelude.{ℕ, ◌≡◌, refl, true, false, ◌↔◌, Bytes, List, [], ◌∷◌, All}
use my_llvm_c.Utf8.{
  seq_len, is_continuation, all_continuation, second_ok, check_seq, valid_from, valid,
}
use my_llvm_c.Utf8.Scalars.{IsScalar, encode_all}
use my_llvm_c.Utf8.Sound.{valid_iff}

-- The letter `a` and the euro sign.
abbrev price : Bytes
price = 0x61 ∷ 0xe2 ∷ 0x82 ∷ 0xac ∷ []

valid_iff_example :
    (valid price ≡ true) ↔ ((cs : List ℕ) × All IsScalar cs × (price ≡ encode_all cs))
valid_iff_example = valid_iff price

price-valid : valid price ≡ true
unfolding valid valid_from check_seq seq_len second_ok all_continuation is_continuation
price-valid = refl

-- An overlong encoding of the solidus.
overlong-valid : valid (0xc0 ∷ 0xaf ∷ []) ≡ false
unfolding valid valid_from check_seq seq_len second_ok all_continuation is_continuation
overlong-valid = refl
