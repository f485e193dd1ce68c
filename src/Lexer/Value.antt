-- ===== src/Lexer/Value.antt =====
-- src/frontend/Lexer.cpp: the value of an integer literal, against positional notation.
use my_llvm_c.Prelude.{ℕ, ◌+◌, ◌*◌, ◌≤◌, ◌≡◌, ◌⊎◌, false, Bytes, [], ◌∷◌, if◌then◌else◌, ◌==◌, ltb}
use my_llvm_c.Lexer.Number.{is_digit_for_radix, digit_value, max_val, accumulate}

-- The number that a text denotes in base `radix`, behind a prefix of value `acc`: `_` separates
-- digits, and the first other byte ends the number. Nothing bounds it.
unfoldable pub value_from : ℕ → ℕ → Bytes → ℕ
value_from radix acc [] = acc
value_from radix acc (c ∷ rest) =
    let skipped = value_from radix acc rest in
    let added = value_from radix (acc * radix + digit_value c) rest in
    if c == b'_' then skipped else if is_digit_for_radix c radix then added else acc

-- The radices of `scanNumber`.
abbrev pub IsRadix : ℕ → Type 0
IsRadix r = (r ≡ 2) ⊎ (r ≡ 8) ⊎ (r ≡ 10) ⊎ (r ≡ 16)

-- The overflow flag and the value, against the unbounded number.
record IsExact (radix acc : ℕ) (s : Bytes) : Type 0 where
  flag : (accumulate radix s (acc, false)).1 ≡ ltb max_val (value_from radix acc s)
  value :
      value_from radix acc s ≤ max_val
      → (accumulate radix s (acc, false)).0 ≡ value_from radix acc s
