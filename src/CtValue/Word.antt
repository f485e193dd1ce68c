-- ===== src/CtValue/Word.antt =====
-- src/ast/CtValue.cpp: integers as 64-bit patterns, with a width and a signedness. A pattern is a number below
-- 2 ^ 64; `int64_t` is its two's complement reading, and the wrap-around of `uint64_t` is written out.
use my_llvm_c.Prelude.{ℕ, ◌+◌, ◌-◌, ◌/◌, ◌%◌, ◌^◌, Bool, not, ltb, leb, ◌==◌, if◌then◌else◌}

abbrev pub word : ℕ
word = 2 ^ 64

unfoldable pub mask_for : ℕ → ℕ
mask_for bits = if leb 64 bits then word - 1 else if bits == 0 then 0 else 2 ^ bits - 1

-- `raw & maskFor(bits)`: the mask is one less than a power of two, so that `&` is the remainder.
unfoldable pub masked : ℕ → ℕ → ℕ
unfolding mask_for
masked raw bits = raw % (mask_for bits + 1)

-- `raw ^ sign`, where `sign` is the top bit of `raw`'s width.
unfoldable pub flip_sign : ℕ → ℕ → ℕ
flip_sign raw sign = if ltb raw sign then raw + sign else raw - sign

unfoldable pub sign_extend : ℕ → ℕ → ℕ
unfolding masked flip_sign
sign_extend raw bits =
    if bits == 0
    then 0
    else if leb 64 bits
    then raw
    else let sign = 2 ^ (bits - 1) in (flip_sign (masked raw bits) sign + (word - sign)) % word

-- A `CtValue` of type `INT`.
pub record CtInt : Type 0 where
  pub int_val : ℕ
  pub bits : ℕ
  pub is_unsigned : Bool
  pub is_bool : Bool

-- `if (bits == 0) bits = 1; if (bits > 64) bits = 64;`
unfoldable pub clamp_bits : ℕ → ℕ
clamp_bits bits = if bits == 0 then 1 else if ltb 64 bits then 64 else bits

unfoldable pub ct_normalize_int : ℕ → ℕ → Bool → Bool → CtInt
unfolding clamp_bits masked sign_extend
ct_normalize_int raw bits is_unsigned is_bool =
    let width = clamp_bits bits in
    record {
      int_val = if is_unsigned then masked raw width else sign_extend raw width;
      bits = width;
      is_unsigned = is_unsigned;
      is_bool = is_bool;
    }

unfoldable pub ct_int : ℕ → ℕ → Bool → Bool → CtInt
unfolding ct_normalize_int clamp_bits
ct_int v bits is_unsigned is_bool = ct_normalize_int v (clamp_bits bits) is_unsigned is_bool

-- `int64_t` on patterns: the sign, the magnitude, and a pattern from these.
unfoldable pub is_negative : ℕ → Bool
is_negative v = leb (2 ^ 63) v

unfoldable pub magnitude : ℕ → ℕ
unfolding is_negative
magnitude v = if is_negative v then word - v else v

unfoldable pub signed_pattern : Bool → ℕ → ℕ
signed_pattern negative m = if negative then (word - m) % word else m % word

-- `<` on `int64_t`: with the top bits flipped the order is that of the patterns.
unfoldable pub signed_lt : ℕ → ℕ → Bool
unfolding flip_sign
signed_lt a b = ltb (flip_sign a (2 ^ 63)) (flip_sign b (2 ^ 63))

-- `/` and `%` on `int64_t` truncate; the remainder has the sign of the dividend.
unfoldable pub signed_div : ℕ → ℕ → ℕ
unfolding signed_pattern magnitude is_negative
signed_div a b =
    signed_pattern (if is_negative a then not (is_negative b) else is_negative b)
      (magnitude a / magnitude b)

unfoldable pub signed_mod : ℕ → ℕ → ℕ
unfolding signed_pattern magnitude is_negative
signed_mod a b = signed_pattern (is_negative a) (magnitude a % magnitude b)

-- `>>` on `int64_t` copies the sign.
unfoldable pub signed_shift_right : ℕ → ℕ → ℕ
unfolding is_negative
signed_shift_right v shift =
    if is_negative v then word - 1 - (word - 1 - v) / 2 ^ shift else v / 2 ^ shift
