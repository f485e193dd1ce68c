-- ===== src/Lexer/ScanShape.antt =====
-- src/frontend/Lexer.cpp: what `scanToken` makes of the text before it. The token of an operator
-- lacks the operator's last character, since `lexeme()` is read before the last `advance()`.
use my_llvm_c.Prelude.{
  ℕ, ◌≡◌, refl, Bool, true, false, ◌&&◌, ◌||◌, if◌then◌else◌, ◌==◌, leb, arith, sym, subst,
}
use Prim.Native.String.{String}
use my_llvm_c.Diagnostic.{DiagnosticCode}
use my_llvm_c.Token.{TokenType, is_punctuator, is_unknown}
use my_llvm_c.Lexer.State.{
  Lexer, is_eof, peek, peek_next, advance, lexeme, make_token, report, report_token, mark_token,
}
use my_llvm_c.Lexer.Quoted.{Scanned}
use my_llvm_c.Lexer.Words.{at_word, is_alpha, is_digit, is_alnum}
use my_llvm_c.Lexer.Number.{at_digit, is_digit_for_radix}
use my_llvm_c.Lexer.Operator.{
  emit, one_of_two, one_of_three, scan_minus, scan_angle, scan_dot, scan_unknown, scan_punctuation,
  scan_operator,
}
use my_llvm_c.Lexer.Scan.{scan_plain, scan_string_prefix, scan_marked, scan_token}
use my_llvm_c.Lexer.Moves.{Moves, stay, step, tell}
use my_llvm_c.Lexer.Whole.{
  IsWhole, scan_string-IsWhole, scan_multiline_string-IsWhole, scan_prefixed_string-IsWhole,
  scan_char-IsWhole, scan_raw_string-IsWhole, scan_identifier-IsWhole,
}
use my_llvm_c.Lexer.WholeNumber.{AtNumber, scan_number-IsWhole}

-- The token was made at `last`, one move before the end.
pub record IsShort (a : Lexer) (r : Scanned) : Type 0 where
  pub last : Lexer
  pub moves : Moves a last
  pub end : r.1 ≡ advance last
  pub text : r.0.lexeme ≡ lexeme last
  pub line : r.0.line ≡ last.token_start_line
  pub column : r.0.column ≡ last.token_start_col
  pub kind : is_punctuator r.0.type ≡ true

pub data IsScan (a : Lexer) (r : Scanned) : Type 0 where
  whole : IsWhole (advance a) r → IsScan a r
  short : IsShort a r → IsScan a r
  dropped : is_unknown r.0.type ≡ true → Moves (advance a) r.1 → IsScan a r

IsScan-if :
    {a : Lexer} (b : Bool) {r s : Scanned} → IsScan a r → IsScan a s → IsScan a (if b then r else s)
IsScan-if true h k = h
IsScan-if false h k = k

-- The branch may use its test.
IsScan-dif :
    {a : Lexer} (b : Bool) {r s : Scanned}
    → (b ≡ true → IsScan a r)
    → IsScan a s
    → IsScan a (if b then r else s)
IsScan-dif true h k = h refl
IsScan-dif false h k = k

emit-IsScan :
    {a b : Lexer} (t : TokenType) → Moves a b → is_punctuator t ≡ true → IsScan a (emit t b)
unfolding emit make_token
emit-IsScan {b} t m p =
    short (record {
      last = b;
      moves = m;
      end = refl;
      text = refl;
      line = refl;
      column = refl;
      kind = p;
    })

-- A report and a move change different fields.
advance-report :
    (code : DiagnosticCode) (msg : String) (line col : ℕ) (lx : Lexer)
    → advance (report code msg line col lx) ≡ report code msg line col (advance lx)
unfolding advance report peek
advance-report code msg line col lx = ground arith

module _ (lx : Lexer) where
  one_of_two-IsScan :
      (c : ℕ) (t u : TokenType)
      → is_punctuator t ≡ true
      → is_punctuator u ≡ true
      → IsScan lx (one_of_two c t u lx)
  unfolding one_of_two
  one_of_two-IsScan c t u p q = IsScan-if _ (emit-IsScan t (step stay) p) (emit-IsScan u stay q)

  one_of_three-IsScan :
      (c : ℕ) (t : TokenType) (d : ℕ) (u v : TokenType)
      → is_punctuator t ≡ true
      → is_punctuator u ≡ true
      → is_punctuator v ≡ true
      → IsScan lx (one_of_three c t d u v lx)
  unfolding one_of_three
  one_of_three-IsScan c t d u v p q r = search (IsScan-if, emit-IsScan, step, stay, p, q, r)

  scan_minus-IsScan : IsScan lx (scan_minus lx)
  unfolding scan_minus is_punctuator
  scan_minus-IsScan = search (IsScan-if, emit-IsScan, step, stay) depth 8

  scan_angle-IsScan :
      (c : ℕ) (t u v w : TokenType)
      → is_punctuator t ≡ true
      → is_punctuator u ≡ true
      → is_punctuator v ≡ true
      → is_punctuator w ≡ true
      → IsScan lx (scan_angle c t u v w lx)
  unfolding scan_angle
  scan_angle-IsScan c t u v w p q r s =
      search (IsScan-if, emit-IsScan, step, stay, p, q, r, s) depth 8

  scan_dot-IsScan : IsScan lx (scan_dot lx)
  unfolding scan_dot is_punctuator
  scan_dot-IsScan = search (IsScan-if, emit-IsScan, step, stay) depth 8

  scan_unknown-IsScan : (ch : ℕ) → IsScan lx (scan_unknown ch lx)
  unfolding scan_unknown make_token is_unknown report_token
  scan_unknown-IsScan ch =
      dropped refl
        (subst (Moves (advance lx)) (sym (advance-report _ _ _ _ lx)) (tell _ _ _ _ stay))

  scan_punctuation-IsScan : (ch : ℕ) → IsScan lx (scan_punctuation ch lx)
  unfolding scan_punctuation is_punctuator
  scan_punctuation-IsScan ch =
      search (IsScan-if, emit-IsScan, stay, scan_dot-IsScan, scan_unknown-IsScan) depth 20

  scan_operator-IsScan : (ch : ℕ) → IsScan lx (scan_operator ch lx)
  unfolding scan_operator is_punctuator
  scan_operator-IsScan ch =
      search
        (
          IsScan-if, one_of_two-IsScan, one_of_three-IsScan, scan_minus-IsScan, scan_angle-IsScan,
          scan_punctuation-IsScan,
        )
        depth 20

-- `std::isdigit` is the test of a decimal digit, and a word may begin where `scanToken` looks for one.
at_digit_ten : (lx : Lexer) → is_digit (peek lx) ≡ true → at_digit 10 lx ≡ true
unfolding is_digit at_digit is_digit_for_radix
at_digit_ten lx h = ground arith

word_start :
    (lx : Lexer)
    → (is_alpha (peek lx) || peek lx == b'_' || leb 0x80 (peek lx)) ≡ true
    → at_word lx ≡ true
unfolding at_word is_alnum
word_start lx h = ground arith

number_start :
    (lx : Lexer)
    → (is_digit (peek lx) || (peek lx == b'.' && is_digit (peek_next lx))) ≡ true
    → AtNumber lx
number_start lx h = ground (arith, at_digit_ten lx)

module _ (lx : Lexer) (h : is_eof lx ≡ false) where
  scan_plain-IsScan : IsScan lx (scan_plain lx)
  unfolding scan_plain
  scan_plain-IsScan =
      IsScan-dif _ (λ t. whole (scan_identifier-IsWhole lx (word_start lx t) h))
        (IsScan-dif _ (λ t. whole (scan_number-IsWhole lx (number_start lx t) h))
          (IsScan-if _ (whole (scan_string-IsWhole lx))
            (IsScan-if _ (whole (scan_char-IsWhole lx stay)) (scan_operator-IsScan lx _))))

  scan_string_prefix-IsScan : IsScan lx (scan_string_prefix lx)
  unfolding scan_string_prefix
  scan_string_prefix-IsScan =
      search
        (
          IsScan-if, whole, scan_prefixed_string-IsWhole, scan_multiline_string-IsWhole, step, stay,
          scan_plain-IsScan,
        )
        depth 16

  scan_marked-IsScan : IsScan lx (scan_marked lx)
  unfolding scan_marked
  scan_marked-IsScan =
      search
        (
          IsScan-if, whole, scan_char-IsWhole, scan_raw_string-IsWhole, scan_string-IsWhole, step,
          stay, scan_string_prefix-IsScan,
        )
        depth 16

-- Every scan ends in one of the three shapes.
pub scan_token-IsScan : (lx : Lexer) → is_eof lx ≡ false → IsScan (mark_token lx) (scan_token lx)
unfolding scan_token mark_token is_eof
scan_token-IsScan lx h = scan_marked-IsScan (mark_token lx) h
