-- ===== src/Format/Spec.antt =====
-- src/ast/PrintFormat.cpp: `parsePrintSpec`, the grammar of a `{:...}` format spec, which is
-- [fill]align? sign? '0'? width? ('.' precision)? type?
-- The text is read from the left; each part takes what it matches and leaves the rest.
pub mod Valid
pub mod Show
pub mod RoundTrip
pub mod Conversion
use my_llvm_c.Prelude.{
  ℕ, suc, Bool, true, false, not, ◌&&◌, ◌||◌, Bytes, [], ◌∷◌, ◌++◌, Option, none, some, ltb, ◌==◌,
  if◌then◌else◌,
}
use my_llvm_c.Format.Decimal.{is_digit, stoi}

-- `PrintSpec`. A character 0 says that a part is absent; so does `none` for the precision -1.
pub record PrintSpec : Type 0 where
  pub fill : ℕ
  pub align : ℕ
  pub sign : ℕ
  pub zero_fill : Bool
  pub width : ℕ
  pub precision : Option ℕ
  pub type : ℕ

abbrev pub default_spec : PrintSpec
default_spec = record {
  fill = b' ';
  align = 0;
  sign = 0;
  zero_fill = false;
  width = 0;
  precision = none;
  type = 0;
}

-- The messages of `parsePrintSpec`, and `out_of_range` for the exception that leaves it.
pub data SpecError : Type 0 where
  invalid_spec : Bytes → SpecError
  zero_requires_right zero_requires_width align_requires_width too_large out_of_range : SpecError

pub data Parsed : Type 0 where
  ok : PrintSpec → Parsed
  error : SpecError → Parsed

unfoldable pub is_align : ℕ → Bool
is_align c = c == b'<' || c == b'>' || c == b'^'

-- A fill character and an alignment; that the first is no alignment was tested before.
unfoldable pub begins_with_fill : ℕ → ℕ → Bool
unfolding is_align is_digit
begins_with_fill c a =
    not (c == b'{') && not (c == b'}') && not (c == b':') && not (is_digit c) && is_align a

-- `[fill]align?`
unfoldable pub parse_align : Bytes → PrintSpec × Bytes
unfolding is_align begins_with_fill
parse_align [] = (default_spec, [])
parse_align (c ∷ []) =
    if is_align c then (record default_spec { align = c }, []) else (default_spec, c ∷ [])
parse_align (c ∷ a ∷ rest) =
    if is_align c
    then (record default_spec { align = c }, a ∷ rest)
    else if begins_with_fill c a
    then (record default_spec { fill = c; align = a }, rest)
    else (default_spec, c ∷ a ∷ rest)

unfoldable pub is_sign : ℕ → Bool
is_sign c = c == b'+' || c == b'-' || c == b' '

-- `sign?`
unfoldable pub parse_sign : Bytes → ℕ × Bytes
unfolding is_sign
parse_sign [] = (0, [])
parse_sign (c ∷ rest) = if is_sign c then (c, rest) else (0, c ∷ rest)

-- `'0'?`
unfoldable pub parse_zero : Bytes → Bool × Bytes
parse_zero [] = (false, [])
parse_zero (c ∷ rest) = if c == b'0' then (true, rest) else (false, c ∷ rest)

-- A run of digits, and what follows it.
unfoldable pub take_digits : Bytes → Bytes × Bytes
unfolding is_digit
take_digits [] = ([], [])
take_digits (c ∷ rest) =
    let (run, left) = take_digits rest in if is_digit c then (c ∷ run, left) else ([], c ∷ rest)

-- The number of a run that may be empty: `none` for the exception of `std::stoi`.
unfoldable pub run_value : Bytes → Option ℕ
run_value [] = some 0
run_value (c ∷ run) = stoi (c ∷ run)

unfoldable pub is_type : ℕ → Bool
is_type t = t == b'x' || t == b'X' || t == b'o' || t == b'b' || t == b'f' || t == b'e' || t == b's'

-- `out.precision > 200`, where an absent precision is -1.
unfoldable pub precision_large : Option ℕ → Bool
precision_large none = false
precision_large (some p) = ltb 200 p

-- The tests that remain once the whole text is read.
unfoldable pub check_spec : PrintSpec → Parsed
check_spec sp =
    if sp.zero_fill && (sp.align == b'<' || sp.align == b'^')
    then error zero_requires_right
    else if sp.zero_fill && sp.width == 0
    then error zero_requires_width
    else if not (sp.align == 0) && sp.width == 0
    then error align_requires_width
    else if ltb 200 sp.width || precision_large sp.precision
    then error too_large
    else ok sp

-- `type?`, and the end of the text. `spec` is the whole text, for the message.
unfoldable pub parse_type : Bytes → PrintSpec → Bytes → Parsed
parse_type spec sp [] = check_spec sp
parse_type spec sp (t ∷ []) =
    if is_type t then check_spec (record sp { type = t }) else error (invalid_spec spec)
parse_type spec sp (t ∷ c ∷ rest) = error (invalid_spec spec)

-- The early test of `'0'` against an alignment behind the width, then `type?`.
unfoldable pub parse_tail : Bytes → PrintSpec → Bytes → Parsed
parse_tail spec sp [] = parse_type spec sp []
parse_tail spec sp (c ∷ rest) =
    if sp.zero_fill && (c == b'<' || c == b'^')
    then error zero_requires_right
    else parse_type spec sp (c ∷ rest)

unfoldable pub parse_after_precision : Bytes → PrintSpec → Option ℕ → Bytes → Parsed
parse_after_precision spec sp none r = error out_of_range
parse_after_precision spec sp (some p) r = parse_tail spec (record sp { precision = some p }) r

unfoldable pub parse_digits_of_precision : Bytes → PrintSpec → Bytes × Bytes → Parsed
parse_digits_of_precision spec sp ([], left) = error (invalid_spec spec)
parse_digits_of_precision spec sp (c ∷ run, left) =
    parse_after_precision spec sp (stoi (c ∷ run)) left

-- `('.' precision)?`
unfoldable pub parse_precision : Bytes → PrintSpec → Bytes → Parsed
parse_precision spec sp [] = parse_tail spec sp []
parse_precision spec sp (c ∷ rest) =
    if c == b'.'
    then parse_digits_of_precision spec sp (take_digits rest)
    else parse_tail spec sp (c ∷ rest)

-- What follows the width, or the exception if the width was too large for an `int`.
unfoldable pub parse_after_width : Bytes → PrintSpec → ℕ → Bool → Option ℕ → Bytes → Parsed
parse_after_width spec sp sign zero_fill none r = error out_of_range
parse_after_width spec sp sign zero_fill (some width) r =
    parse_precision spec (record sp { sign = sign; zero_fill = zero_fill; width = width }) r

unfoldable pub parse_print_spec : Bytes → Parsed
parse_print_spec spec =
    let (aligned, r1) = parse_align spec in
    let (sign, r2) = parse_sign r1 in
    let (zero_fill, r3) = parse_zero r2 in
    let (run, r4) = take_digits r3 in
    parse_after_width spec aligned sign zero_fill (run_value run) r4
