-- ===== src/Lexer/Number.antt =====
-- src/frontend/Lexer.cpp: numeric literals.
use my_llvm_c.Prelude.{
  ℕ, zero, suc, ◌+◌, ◌-◌, ◌*◌, ◌/◌, ◌^◌, Bool, true, false, not, ◌&&◌, ◌||◌, Bytes, [], ◌∷◌, Option,
  none, some, ltb, leb, ◌==◌, if◌then◌else◌, get_or, take, drop,
}
use my_llvm_c.Token.{
  LiteralKind, int, uint, long, ulong, float16, float32, float64, float128, token_number,
  token_float, integer, double,
}
use my_llvm_c.Lexer.State.{
  Lexer, peek, peek_next, advance, advance_while, report, report_token, make_token, lexeme,
}
use my_llvm_c.Lexer.Quoted.{Scanned}
use my_llvm_c.Diagnostic.{lex_integer_overflow, lex_invalid_digit_separator}

unfoldable pub is_digit_for_radix : ℕ → ℕ → Bool
is_digit_for_radix c radix =
    if radix == 2
    then c == b'0' || c == b'1'
    else if radix == 8
    then leb b'0' c && leb c b'7'
    else if radix == 10
    then leb b'0' c && leb c b'9'
    else if radix == 16
    then (leb b'0' c && leb c b'9') || (leb b'a' c && leb c b'f') || (leb b'A' c && leb c b'F')
    else false

unfoldable pub digit_value : ℕ → ℕ
digit_value c =
    if leb b'0' c && leb c b'9'
    then c - b'0'
    else if leb b'a' c && leb c b'f'
    then c - b'a' + 10
    else if leb b'A' c && leb c b'F'
    then c - b'A' + 10
    else 0

-- The loop of `validateDigitSeparators`: the index of the first misplaced `_`, from index `i` on,
-- with the character before it (0 at the start).
unfoldable pub bad_separator : ℕ → ℕ → ℕ → Bytes → Option ℕ
unfolding is_digit_for_radix
bad_separator radix i prev [] = none
bad_separator radix i prev (c ∷ rest) =
    let later = bad_separator radix (i + 1) c rest in
    if not (c == b'_')
    then later
    else if not (is_digit_for_radix prev radix) || not (is_digit_for_radix (get_or rest 0 0) radix)
    then some i
    else later

unfoldable pub report_separator : Option ℕ → Lexer → Lexer
report_separator none lx = lx
report_separator (some i) lx =
    report lex_invalid_digit_separator "misplaced digit separator '_'" lx.token_start_line
      (lx.token_start_col + i) lx

unfoldable pub validate_digit_separators : Bytes → ℕ → Lexer → Lexer
unfolding bad_separator report_separator
validate_digit_separators text radix lx = report_separator (bad_separator radix 0 0 text) lx

abbrev pub integer_kind : Bool → ℕ → LiteralKind
integer_kind has_u l_count =
    if has_u && ltb 0 l_count
    then ulong
    else if has_u
    then uint
    else if ltb 0 l_count
    then long
    else int

-- The loop of `consumeIntegerSuffix`. It goes on at most three times: `u` once and `l` twice.
unfoldable pub integer_suffix_fuel : ℕ → Bool → ℕ → Lexer → LiteralKind × Lexer
unfolding peek
integer_suffix_fuel zero has_u l_count lx = (integer_kind has_u l_count, lx)
integer_suffix_fuel (suc fuel) has_u l_count lx =
    let c = peek lx in
    let after_u = integer_suffix_fuel fuel true l_count (advance lx) in
    let after_l = integer_suffix_fuel fuel has_u (l_count + 1) (advance lx) in
    if (c == b'u' || c == b'U') && not has_u
    then after_u
    else if (c == b'l' || c == b'L') && ltb l_count 2
    then after_l
    else (integer_kind has_u l_count, lx)

unfoldable pub consume_integer_suffix : Lexer → LiteralKind × Lexer
unfolding integer_suffix_fuel
consume_integer_suffix lx = integer_suffix_fuel 4 false 0 lx

-- `m_source.compare(m_currentPos, 3, "128") == 0`, given that `1` and `2` were seen.
abbrev at_128 : Lexer → Bool
at_128 lx = get_or lx.source (lx.current_pos + 2) 0 == b'8'

unfoldable pub consume_float_suffix : Lexer → LiteralKind × Lexer
unfolding peek peek_next
consume_float_suffix lx =
    let c = peek lx in
    let f = advance lx in
    if c == b'f' || c == b'F'
    then (if peek f == b'1' && peek_next f == b'6'
        then (float16, advance (advance f))
        else if peek f == b'1' && peek_next f == b'2' && at_128 f
        then (float128, advance (advance (advance f)))
        else if peek f == b'3' && peek_next f == b'2'
        then (float32, advance (advance f))
        else if peek f == b'6' && peek_next f == b'4'
        then (float64, advance (advance f))
        else (float32, f))
    else if c == b'l' || c == b'L'
    then (float64, f)
    else (float64, lx)

-- `maxVal`, the largest `unsigned __int128`.
abbrev pub max_val : ℕ
max_val = 2 ^ 128 - 1

-- `addDigit`, on the accumulator and the flag `overflowed`. Its report is made once, by the caller
-- of the loop, when the flag is set.
unfoldable pub add_digit : ℕ → ℕ → ℕ × Bool → ℕ × Bool
add_digit base digit (acc, true) = (acc, true)
add_digit base digit (acc, false) =
    if ltb ((max_val - digit) / base) acc then (acc, true) else (acc * base + digit, false)

-- The loop over the lexeme that accumulates an integer: it skips `_` and stops at the suffix.
unfoldable pub accumulate : ℕ → Bytes → ℕ × Bool → ℕ × Bool
accumulate radix [] state = state
accumulate radix (c ∷ rest) state =
    let skipped = accumulate radix rest state in
    let added = accumulate radix rest (add_digit radix (digit_value c) state) in
    if c == b'_' then skipped else if not (is_digit_for_radix c radix) then state else added

-- The end of an integer literal: suffix, separators, value. `from` is where the digits begin.
unfoldable pub finish_integer : ℕ → ℕ → Lexer → Scanned
finish_integer radix from lx =
    let (kind, suffixed) = consume_integer_suffix lx in
    let text = lexeme suffixed in
    let checked = validate_digit_separators text radix suffixed in
    let (value, overflowed) = accumulate radix (drop from text) (0, false) in
    let end =
      if overflowed
      then report_token lex_integer_overflow "integer literal overflows 128 bits" checked
      else checked in
    let token = make_token end token_number text (integer value) in
    (record token { literal_kind = kind }, end)

-- `cleanStr`: the text without its separators.
unfoldable pub clean : Bytes → Bytes
clean [] = []
clean (c ∷ rest) = if c == b'_' then clean rest else c ∷ clean rest

-- The end of a floating literal: suffix, separators, and the text that is converted.
unfoldable pub finish_float : ℕ → Lexer → Scanned
finish_float radix lx =
    let number_len = lx.current_pos - lx.start_pos in
    let (kind, suffixed) = consume_float_suffix lx in
    let text = lexeme suffixed in
    let end = validate_digit_separators text radix suffixed in
    let token = make_token end token_float text (double (clean (take number_len text))) in
    (record token { literal_kind = kind }, end)

unfoldable pub at_digit : ℕ → Lexer → Bool
unfolding is_digit_for_radix peek
at_digit radix lx = is_digit_for_radix (peek lx) radix || peek lx == b'_'

unfoldable pub at_sign : Lexer → Bool
unfolding peek
at_sign lx = peek lx == b'+' || peek lx == b'-'

-- `exponentFollows`, and the like test on `p`: the letter, a sign or none, a digit or `_`.
-- A position past the end reads as 0, which is none of these.
unfoldable pub exponent_follows : ℕ → ℕ → Lexer → Bool
unfolding is_digit_for_radix peek
exponent_follows small big lx =
    let c1 = get_or lx.source (lx.current_pos + 1) 0 in
    let c2 = get_or lx.source (lx.current_pos + 2) 0 in
    let c = if c1 == b'+' || c1 == b'-' then c2 else c1 in
    (peek lx == small || peek lx == big) && (is_digit_for_radix c 10 || c == b'_')

unfoldable pub skip_exponent : Lexer → Lexer
unfolding at_sign at_digit
skip_exponent lx =
    let e = advance lx in advance_while (at_digit 10) (if at_sign e then advance e else e)

unfoldable pub skip_fraction : ℕ → Lexer → Lexer
unfolding at_digit
skip_fraction radix lx = advance_while (at_digit radix) (advance lx)

-- A fraction, if a point is next.
unfoldable pub optional_fraction : ℕ → Lexer → Lexer
unfolding skip_fraction
optional_fraction radix lx = if peek lx == b'.' then skip_fraction radix lx else lx

-- An exponent behind one of two letters, if one follows.
unfoldable pub optional_exponent : ℕ → ℕ → Lexer → Lexer
unfolding exponent_follows skip_exponent
optional_exponent small big lx = if exponent_follows small big lx then skip_exponent lx else lx

-- The part of a `0x` literal behind its digits: `hasHexFraction` and `hasHexExponent` are the tests.
unfoldable pub scan_hex : Lexer → Scanned
scan_hex lx =
    let fraction = optional_fraction 16 lx in
    let end = optional_exponent b'p' b'P' fraction in
    if peek lx == b'.' || exponent_follows b'p' b'P' fraction
    then finish_float 16 end
    else finish_integer 16 2 end

unfoldable pub scan_prefixed : ℕ → Lexer → Scanned
scan_prefixed radix lx =
    let digits = advance_while (at_digit radix) (advance (advance lx)) in
    if radix == 16 then scan_hex digits else finish_integer radix 2 digits

-- The digits before the point; there are none where the literal begins with its point.
unfoldable pub whole_part : Lexer → Lexer
unfolding at_digit
whole_part lx = if peek lx == b'.' then lx else advance_while (at_digit 10) lx

-- A decimal literal: `hasFraction` and `hasExponent` are the tests.
unfoldable pub scan_decimal : Lexer → Scanned
scan_decimal lx =
    let whole = whole_part lx in
    let fraction = optional_fraction 10 whole in
    let end = optional_exponent b'e' b'E' fraction in
    if peek whole == b'.' || exponent_follows b'e' b'E' fraction
    then finish_float 10 end
    else finish_integer 10 0 end

-- The radix that the letter behind a `0` announces, 0 for none.
unfoldable pub radix_of : ℕ → ℕ
radix_of next =
    if next == b'b' || next == b'B'
    then 2
    else if next == b'o' || next == b'O'
    then 8
    else if next == b'x' || next == b'X'
    then 16
    else 0

unfoldable pub scan_number : Lexer → Scanned
scan_number lx =
    let radix = if peek lx == b'0' then radix_of (peek_next lx) else 0 in
    if radix == 0 then scan_decimal lx else scan_prefixed radix lx
