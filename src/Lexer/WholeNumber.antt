-- ===== src/Lexer/WholeNumber.antt =====
-- src/frontend/Lexer.cpp: the tokens of numeric literals, against the text that they stand for.
use my_llvm_c.Prelude.{
  ℕ, zero, suc, ◌+◌, ◌≡◌, refl, ◌∙◌, ◌⊎◌, inl, inr, Bool, true, false, if◌then◌else◌, ◌==◌,
  Bool-cases, Bytes, Option, none, some, sym,
}
use Prim.Native.String.{String}
use my_llvm_c.Diagnostic.{DiagnosticCode, lex_integer_overflow}
use my_llvm_c.Token.{LiteralKind, is_punctuator}
use my_llvm_c.Lexer.State.{
  Lexer, is_eof, peek, advance, advance_while, lexeme, make_token, report, report_token,
}
use my_llvm_c.Lexer.Number.{
  integer_suffix_fuel, consume_integer_suffix, consume_float_suffix, bad_separator,
  report_separator, validate_digit_separators, finish_integer, finish_float, at_digit,
  skip_exponent, skip_fraction, scan_hex, scan_prefixed, scan_decimal, scan_number,
  optional_fraction, optional_exponent, whole_part,
}
use my_llvm_c.Lexer.Moves.{
  Moves, stay, step, tell, Moves-if, report_token-Moves, advance_while-Moves,
}
use my_llvm_c.Lexer.Whole.{IsWhole, IsWhole-if, advance_while_first}

module _ {a : Lexer} where
  Moves-if_kind :
      (b : Bool) (x y : LiteralKind × Lexer)
      → Moves a x.1
      → Moves a y.1
      → Moves a (if b then x else y).1
  Moves-if_kind true x y m n = m
  Moves-if_kind false x y m n = n

  integer_suffix-Moves :
      (fuel : ℕ) (u : Bool) (l : ℕ) {b : Lexer}
      → Moves a b
      → Moves a (integer_suffix_fuel fuel u l b).1
  unfolding integer_suffix_fuel
  integer_suffix-Moves zero u l m = m
  integer_suffix-Moves (suc fuel) u l {b} m =
      let after_u = integer_suffix-Moves fuel true l (step m) in
      let after_l = integer_suffix-Moves fuel u (l + 1) (step m) in
      search (Moves-if_kind, after_u, after_l, m)

  consume_integer_suffix-Moves : {b : Lexer} → Moves a b → Moves a (consume_integer_suffix b).1
  unfolding consume_integer_suffix
  consume_integer_suffix-Moves m = integer_suffix-Moves 4 false 0 m

  consume_float_suffix-Moves : {b : Lexer} → Moves a b → Moves a (consume_float_suffix b).1
  unfolding consume_float_suffix
  consume_float_suffix-Moves m = search (Moves-if_kind, step, m) depth 9

  report_separator-Moves : (i : Option ℕ) {b : Lexer} → Moves a b → Moves a (report_separator i b)
  unfolding report_separator
  report_separator-Moves none m = m
  report_separator-Moves (some i) m = tell _ _ _ _ m

  validate-Moves :
      (text : Bytes) (radix : ℕ) {b : Lexer}
      → Moves a b
      → Moves a (validate_digit_separators text radix b)
  unfolding validate_digit_separators
  validate-Moves text radix m = report_separator-Moves (bad_separator radix 0 0 text) m

-- Reports leave the text and the token's start alone.
lexeme-report_separator : (i : Option ℕ) (b : Lexer) → lexeme (report_separator i b) ≡ lexeme b
unfolding report_separator report lexeme
lexeme-report_separator none b = refl
lexeme-report_separator (some i) b = refl

lexeme-report_if :
    (b : Bool) (x y : Lexer) → lexeme x ≡ lexeme y → lexeme (if b then x else y) ≡ lexeme y
lexeme-report_if true x y e = e
lexeme-report_if false x y e = refl

lexeme-validate :
    (text : Bytes) (radix : ℕ) (b : Lexer)
    → lexeme (validate_digit_separators text radix b) ≡ lexeme b
unfolding validate_digit_separators
lexeme-validate text radix b = lexeme-report_separator (bad_separator radix 0 0 text) b

lexeme-report_token :
    (code : DiagnosticCode) (msg : String) (b : Lexer) → lexeme (report_token code msg b) ≡ lexeme b
unfolding report_token report lexeme
lexeme-report_token code msg b = refl

module _ {a b : Lexer} (m : Moves a b) where
  finish_integer-IsWhole : (radix from : ℕ) → IsWhole a (finish_integer radix from b)
  unfolding finish_integer make_token is_punctuator
  finish_integer-IsWhole radix from =
      let suffixed = (consume_integer_suffix b).1 in
      let text = lexeme suffixed in
      let end = validate_digit_separators text radix suffixed in
      let checked = validate-Moves text radix (consume_integer_suffix-Moves m) in
      record {
        moves = Moves-if _ (report_token-Moves _ _ checked) checked;
        text = sym (
            lexeme-report_if _
              (report_token lex_integer_overflow "integer literal overflows 128 bits" end) end
              (lexeme-report_token _ _ end)
            ∙ lexeme-validate text radix suffixed);
        line = refl;
        column = refl;
        kind = refl;
      }

  finish_float-IsWhole : (radix : ℕ) → IsWhole a (finish_float radix b)
  unfolding finish_float make_token is_punctuator
  finish_float-IsWhole radix =
      let suffixed = (consume_float_suffix b).1 in
      record {
        moves = validate-Moves _ radix (consume_float_suffix-Moves m);
        text = sym (lexeme-validate (lexeme suffixed) radix suffixed);
        line = refl;
        column = refl;
        kind = refl;
      }

module _ {a : Lexer} where
  skip_exponent-Moves : {b : Lexer} → Moves a b → Moves a (skip_exponent b)
  unfolding skip_exponent
  skip_exponent-Moves m = advance_while-Moves _ (Moves-if _ (step (step m)) (step m))

  skip_fraction-Moves : (radix : ℕ) {b : Lexer} → Moves a b → Moves a (skip_fraction radix b)
  unfolding skip_fraction
  skip_fraction-Moves radix m = advance_while-Moves _ (step m)

  optional_fraction-Moves :
      (radix : ℕ) {b : Lexer} → Moves a b → Moves a (optional_fraction radix b)
  unfolding optional_fraction
  optional_fraction-Moves radix m = Moves-if _ (skip_fraction-Moves radix m) m

  optional_exponent-Moves : (p q : ℕ) {b : Lexer} → Moves a b → Moves a (optional_exponent p q b)
  unfolding optional_exponent
  optional_exponent-Moves p q m = Moves-if _ (skip_exponent-Moves m) m

  scan_hex-IsWhole : {b : Lexer} → Moves a b → IsWhole a (scan_hex b)
  unfolding scan_hex
  scan_hex-IsWhole m =
      let end = optional_exponent-Moves b'p' b'P' (optional_fraction-Moves 16 m) in
      IsWhole-if _ (finish_float-IsWhole end 16) (finish_integer-IsWhole end 16 2)

scan_prefixed-IsWhole : (radix : ℕ) (lx : Lexer) → IsWhole (advance lx) (scan_prefixed radix lx)
unfolding scan_prefixed
scan_prefixed-IsWhole radix lx =
    let digits = advance_while-Moves (at_digit radix) (step stay) in
    IsWhole-if _ (scan_hex-IsWhole digits) (finish_integer-IsWhole digits radix 2)

-- What `scanToken` has tested when it calls `scanNumber`: a point, or a digit.
abbrev pub AtNumber : Lexer → Type 0
AtNumber lx = (peek lx == b'.') ≡ true ⊎ at_digit 10 lx ≡ true

-- Either way the lexer moves on before a fraction ends.
decimal-Moves :
    (lx : Lexer)
    → AtNumber lx
    → is_eof lx ≡ false
    → Moves (advance lx) (optional_fraction 10 (whole_part lx))
unfolding whole_part optional_fraction skip_fraction
decimal-Moves lx start h = elim (Bool-cases (peek lx == b'.')) [
  | inl point ↦ rw (point, point) (advance_while-Moves (at_digit 10) stay)
  | inr other ↦
      rw other (Moves-if _ (advance_while-Moves _ (step (first start other))) (first start other))
]
  where
    first :
        AtNumber lx
        → (peek lx == b'.') ≡ false
        → Moves (advance lx) (advance_while (at_digit 10) lx)
    first (inl e) f = cc
    first (inr e) f = advance_while_first (at_digit 10) lx e h

scan_decimal-IsWhole :
    (lx : Lexer) → AtNumber lx → is_eof lx ≡ false → IsWhole (advance lx) (scan_decimal lx)
unfolding scan_decimal
scan_decimal-IsWhole lx start h =
    let end = optional_exponent-Moves b'e' b'E' (decimal-Moves lx start h) in
    IsWhole-if _ (finish_float-IsWhole end 10) (finish_integer-IsWhole end 10 0)

pub scan_number-IsWhole :
    (lx : Lexer) → AtNumber lx → is_eof lx ≡ false → IsWhole (advance lx) (scan_number lx)
unfolding scan_number
scan_number-IsWhole lx start h =
    IsWhole-if _ (scan_decimal-IsWhole lx start h) (scan_prefixed-IsWhole _ lx)
