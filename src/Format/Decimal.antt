-- ===== src/Format/Decimal.antt =====
-- The decimal conversions of the C++ library that src/ast/PrintFormat.cpp calls: `std::to_string` on a
-- non-negative number, and `std::stoi` on a run of digits, which throws above `INT_MAX`.
use my_llvm_c.Prelude.{
  ℕ, zero, suc, ◌+◌, ◌-◌, ◌*◌, ◌/◌, ◌%◌, ◌^◌, ◌<◌, ◌≤◌, ◌≡◌, refl, ◌∙◌, ap, Bool, true, ◌&&◌, Bytes,
  [], ◌∷◌, Option, none, some, ltb, leb, if◌then◌else◌, arith, Bool-cases, inl, inr,
}

unfoldable pub is_digit : ℕ → Bool
is_digit c = leb b'0' c && leb c b'9'

-- The value of a run of digits behind a prefix of value `acc`.
unfoldable pub digits_value : ℕ → Bytes → ℕ
digits_value acc [] = acc
digits_value acc (c ∷ s) = digits_value (acc * 10 + (c - b'0')) s

abbrev pub int_max : ℕ
int_max = 2 ^ 31 - 1

-- `none` stands for `std::out_of_range`.
unfoldable pub stoi : Bytes → Option ℕ
unfolding digits_value
stoi s = let v = digits_value 0 s in if ltb int_max v then none else some v

-- The digits of `n` in front of `rest`, the last one first.
unfoldable pub to_string_fuel : ℕ → ℕ → Bytes → Bytes
to_string_fuel zero n rest = rest
to_string_fuel (suc fuel) n rest =
    let more = to_string_fuel fuel (n / 10) ((n % 10 + b'0') ∷ rest) in
    if ltb n 10 then (n + b'0') ∷ rest else more

-- A number has at most as many digits as its value, and one more for 0.
unfoldable pub to_string : ℕ → Bytes
unfolding to_string_fuel
to_string n = to_string_fuel (suc n) n []

abbrev pub AllDigits : Bytes → Type 0
AllDigits [] = Unit
AllDigits (c ∷ s) = (is_digit c ≡ true) × AllDigits s

digits_value-to_string_fuel :
    (fuel n : ℕ) (rest : Bytes)
    → n < fuel
    → digits_value 0 (to_string_fuel fuel n rest) ≡ digits_value n rest
unfolding to_string_fuel digits_value
digits_value-to_string_fuel zero n rest h = elim h [ ]
digits_value-to_string_fuel (suc fuel) n rest h = elim (Bool-cases (ltb n 10)) [
  | inl last ↦ rw last (ap (λ v. digits_value v rest) (omega arith))
  | inr more ↦ rw more (
      digits_value-to_string_fuel fuel (n / 10) ((n % 10 + b'0') ∷ rest) (ground arith)
      ∙ ap (λ v. digits_value v rest) (omega arith))
]

-- The text of a number is digits, in front of digits.
to_string_fuel-AllDigits :
    (fuel n : ℕ) (rest : Bytes) → n < fuel → AllDigits rest → AllDigits (to_string_fuel fuel n rest)
unfolding to_string_fuel is_digit
to_string_fuel-AllDigits zero n rest h d = elim h [ ]
to_string_fuel-AllDigits (suc fuel) n rest h d = elim (Bool-cases (ltb n 10)) [
  | inl last ↦ rw last (ground arith, d)
  | inr more ↦ rw more (
      to_string_fuel-AllDigits fuel (n / 10) ((n % 10 + b'0') ∷ rest) (ground arith)
        (ground arith, d))
]

pub to_string-AllDigits : (n : ℕ) → AllDigits (to_string n)
unfolding to_string
to_string-AllDigits n = to_string_fuel-AllDigits (suc n) n [] (omega arith) tt

pub digits_value-to_string : (n : ℕ) → digits_value 0 (to_string n) ≡ n
unfolding to_string digits_value
digits_value-to_string n = digits_value-to_string_fuel (suc n) n [] (omega arith)

-- Reading back what was printed.
pub stoi-to_string : (n : ℕ) → n ≤ int_max → stoi (to_string n) ≡ some n
unfolding stoi
stoi-to_string n h = rw digits_value-to_string (ground arith)

-- The first character of a positive number is no zero.
abbrev pub BeginsPositive : Bytes → Type 0
BeginsPositive text = (c : ℕ) × (s : Bytes) × (text ≡ c ∷ s) × (b'1' ≤ c) × (c ≤ b'9') × AllDigits s

to_string_fuel-BeginsPositive :
    (fuel n : ℕ) (rest : Bytes)
    → n < fuel
    → 0 < n
    → AllDigits rest
    → BeginsPositive (to_string_fuel fuel n rest)
unfolding to_string_fuel is_digit
to_string_fuel-BeginsPositive zero n rest h p d = elim h [ ]
to_string_fuel-BeginsPositive (suc fuel) n rest h p d = elim (Bool-cases (ltb n 10)) [
  | inl last ↦ rw last (n + b'0', rest, refl, omega arith, ground arith, d)
  | inr more ↦ rw more (
      to_string_fuel-BeginsPositive fuel (n / 10) ((n % 10 + b'0') ∷ rest) (ground arith)
        (ground arith) (ground arith, d))
]

pub to_string-BeginsPositive : (n : ℕ) → 0 < n → BeginsPositive (to_string n)
unfolding to_string
to_string-BeginsPositive n h = to_string_fuel-BeginsPositive (suc n) n [] (omega arith) h tt
