-- ===== src/Lexer/Whole.antt =====
-- src/frontend/Lexer.cpp: the tokens of literals, identifiers and keywords, against the text that they
-- stand for and its position.
use Prim.Native.String.{String}
use my_llvm_c.Prelude.{
  ℕ, zero, suc, ◌<◌, ◌≡◌, refl, subst, Bool, true, false, if◌then◌else◌, arith, Bytes, List, [],
  ◌∷◌, ◌++◌, drop, length, Option, none, some, not, ◌&&◌,
}
use mathlib.Core.Option.{some-injective}
use my_llvm_c.Token.{TokenType, StringLiteralPrefix, is_punctuator}
use my_llvm_c.Lexer.State.{
  Lexer, is_eof, peek, advance, advance_while_fuel, advance_while, remaining, lexeme, make_token,
}
use my_llvm_c.Lexer.Quoted.{
  Scanned, string_token, quoted_round, raw_round, multiline_round, scan_string,
  scan_multiline_string, scan_prefixed_string, scan_char, raw_delimiter, not_eof, raw_string_error,
  raw_string_end, raw_string_body, scan_raw_string, find,
}
use my_llvm_c.Lexer.Words.{at_word, find_keyword, keyword_map, keyword, word_token, scan_identifier}
use my_llvm_c.Lexer.Moves.{
  Moves, stay, step, report_token-Moves, advance_while-Moves, advance_while_fuel-Moves, loop-Moves,
  unterminated-Moves, quoted_round-Moves, raw_round-Moves, multiline_round-Moves,
}

pub record IsWhole (a : Lexer) (r : Scanned) : Type 0 where
  pub moves : Moves a r.1
  pub text : r.0.lexeme ≡ lexeme r.1
  pub line : r.0.line ≡ r.1.token_start_line
  pub column : r.0.column ≡ r.1.token_start_col
  pub kind : is_punctuator r.0.type ≡ false

module _ {a : Lexer} where
  pub IsWhole-if :
      (b : Bool) {r s : Scanned} → IsWhole a r → IsWhole a s → IsWhole a (if b then r else s)
  IsWhole-if true h k = h
  IsWhole-if false h k = k

  string_token-IsWhole : {b : Lexer} → Moves a b → IsWhole a (string_token b)
  unfolding string_token make_token is_punctuator
  string_token-IsWhole m = record {
    moves = m;
    text = refl;
    line = refl;
    column = refl;
    kind = refl;
  }

-- The literals in quotes, each behind its first character.
module _ (lx : Lexer) where
  pub scan_string-IsWhole : IsWhole (advance lx) (scan_string lx)
  unfolding scan_string
  scan_string-IsWhole =
      let raw = loop-Moves raw_round raw_round-Moves (step stay) in
      let plain =
        loop-Moves (quoted_round b'"' "unterminated string literal") (quoted_round-Moves _ _)
          stay in
      IsWhole-if _ (string_token-IsWhole raw) (string_token-IsWhole plain)

  pub scan_multiline_string-IsWhole : IsWhole (advance lx) (scan_multiline_string lx)
  unfolding scan_multiline_string string_token make_token is_punctuator
  scan_multiline_string-IsWhole =
      let m = loop-Moves multiline_round multiline_round-Moves (step (step stay)) in
      record { moves = m; text = refl; line = refl; column = refl; kind = refl }

-- A prefix may be consumed before these; they take one character themselves.
module _ {a : Lexer} (b : Lexer) (m : Moves a (advance b)) where
  pub scan_prefixed_string-IsWhole :
      (p : StringLiteralPrefix) → IsWhole a (scan_prefixed_string p b)
  unfolding scan_prefixed_string string_token make_token is_punctuator
  scan_prefixed_string-IsWhole p =
      let m =
        loop-Moves (quoted_round b'"' "unterminated string literal") (quoted_round-Moves _ _) m in
      record { moves = m; text = refl; line = refl; column = refl; kind = refl }

  pub scan_char-IsWhole : IsWhole a (scan_char b)
  unfolding scan_char make_token is_punctuator
  scan_char-IsWhole =
      let m =
        loop-Moves (quoted_round b'\'' "unterminated character literal") (quoted_round-Moves _ _)
          m in
      record { moves = m; text = refl; line = refl; column = refl; kind = refl }

module _ {a : Lexer} where
  snd_if :
      (b : Bool) (x y : Bytes × Lexer) → Moves a x.1 → Moves a y.1 → Moves a (if b then x else y).1
  snd_if true x y m n = m
  snd_if false x y m n = n

  raw_delimiter-Moves :
      (room : ℕ) (delim : Bytes) {b : Lexer} → Moves a b → Moves a (raw_delimiter room delim b).1
  unfolding raw_delimiter
  raw_delimiter-Moves zero delim m = m
  raw_delimiter-Moves (suc room) delim {b} m =
      let next = raw_delimiter-Moves room (delim ++ peek b ∷ []) (step m) in
      search (snd_if, report_token-Moves, next, m)

  raw_string_error-IsWhole : {b : Lexer} → Moves a b → IsWhole a (raw_string_error b)
  unfolding raw_string_error
  raw_string_error-IsWhole m =
      string_token-IsWhole (advance_while-Moves not_eof (unterminated-Moves _ m))

  raw_string_end-IsWhole :
      (size : ℕ) (found : Option ℕ) {b : Lexer}
      → Moves a b
      → IsWhole a (raw_string_end size found b)
  unfolding raw_string_end
  raw_string_end-IsWhole size none m = raw_string_error-IsWhole m
  raw_string_end-IsWhole size (some i) m = string_token-IsWhole (advance_while-Moves _ m)

  raw_string_body-IsWhole :
      (delim : Bytes) {b : Lexer} → Moves a b → IsWhole a (raw_string_body delim b)
  unfolding raw_string_body
  raw_string_body-IsWhole delim {b} m =
      let terminator = (b')' ∷ delim) ++ b'"' ∷ [] in
      raw_string_end-IsWhole (length terminator) (find terminator (drop b.current_pos b.source)) m

pub scan_raw_string-IsWhole : (lx : Lexer) → IsWhole (advance lx) (scan_raw_string lx)
unfolding scan_raw_string
scan_raw_string-IsWhole lx =
    let opened = raw_delimiter-Moves 16 _ (step stay) in
    IsWhole-if _ (raw_string_body-IsWhole _ (step opened)) (raw_string_error-IsWhole opened)

-- The first round of a loop whose test holds.
advance_while_fuel_first :
    (test : Lexer → Bool) (fuel : ℕ) (lx : Lexer)
    → test lx ≡ true
    → 0 < fuel
    → Moves (advance lx) (advance_while_fuel test fuel lx)
unfolding advance_while_fuel
advance_while_fuel_first test zero lx t h = elim h [ ]
advance_while_fuel_first test (suc fuel) lx t h =
    rw (t, advance_while_fuel) (advance_while_fuel-Moves test fuel stay)

pub advance_while_first :
    (test : Lexer → Bool) (lx : Lexer)
    → test lx ≡ true
    → is_eof lx ≡ false
    → Moves (advance lx) (advance_while test lx)
unfolding advance_while is_eof remaining
advance_while_first test lx t h = advance_while_fuel_first test (remaining lx) lx t (ground arith)

-- No keyword is spelled by an operator's type.
all_plain : List (String × TokenType) → Bool
all_plain [] = true
all_plain ((k, t) ∷ m) = not (is_punctuator t) && all_plain m

split_and : (p q : Bool) → (not p && q) ≡ true → (p ≡ false) × (q ≡ true)
split_and true q h = cc
split_and false q h = (refl, h)

choose_plain :
    (b : Bool) (s t : TokenType) (rest : Option TokenType)
    → is_punctuator s ≡ false
    → (rest ≡ some t → is_punctuator t ≡ false)
    → (if b then some s else rest) ≡ some t
    → is_punctuator t ≡ false
choose_plain true s t rest h k e = subst (λ u. is_punctuator u ≡ false) (some-injective s t e) h
choose_plain false s t rest h k e = k e

find_keyword-plain :
    (word : Bytes) (m : List (String × TokenType)) (t : TokenType)
    → all_plain m ≡ true
    → find_keyword word m ≡ some t
    → is_punctuator t ≡ false
unfolding all_plain find_keyword
find_keyword-plain word [] t h e = cc
find_keyword-plain word ((k, s) ∷ m) t h e =
    let (plain, rest) = split_and (is_punctuator s) (all_plain m) h in
    choose_plain _ s t (find_keyword word m) plain (find_keyword-plain word m t rest) e

keyword-plain : (word : Bytes) (t : TokenType) → keyword word ≡ some t → is_punctuator t ≡ false
unfolding all_plain keyword is_punctuator
keyword-plain word t e = find_keyword-plain word keyword_map t refl e

word_token-IsWhole :
    {a b : Lexer} (found : Option TokenType)
    → ((t : TokenType) → found ≡ some t → is_punctuator t ≡ false)
    → Moves a b
    → IsWhole a (word_token found b)
unfolding word_token make_token is_punctuator
word_token-IsWhole (some t) plain m = record {
  moves = m;
  text = refl;
  line = refl;
  column = refl;
  kind = plain t refl;
}
word_token-IsWhole none plain m = record {
  moves = m;
  text = refl;
  line = refl;
  column = refl;
  kind = refl;
}

pub scan_identifier-IsWhole :
    (lx : Lexer) → at_word lx ≡ true → is_eof lx ≡ false → IsWhole (advance lx) (scan_identifier lx)
unfolding scan_identifier
scan_identifier-IsWhole lx t h =
    word_token-IsWhole _ (keyword-plain _) (advance_while_first at_word lx t h)
