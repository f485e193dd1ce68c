-- ===== src/Lexer/Scan.antt =====
-- src/frontend/Lexer.cpp: `scanToken`, `nextToken` and `tokenize`.
use my_llvm_c.Prelude.{ℕ, zero, suc, ◌&&◌, ◌||◌, List, [], ◌∷◌, leb, ◌==◌, if◌then◌else◌, Bytes}
use my_llvm_c.Token.{Token, token_eos, monostate, is_unknown, u8, u16, u32}
use my_llvm_c.Lexer.State.{
  Lexer, is_eof, peek, peek_next, peek_next2, peek_next3, advance, make_token, mark_start,
  mark_token, remaining, new_lexer,
}
use my_llvm_c.Lexer.Trivia.{skip_trivia}
use my_llvm_c.Lexer.Quoted.{
  Scanned, scan_string, scan_raw_string, scan_prefixed_string, scan_multiline_string, scan_char,
}
use my_llvm_c.Lexer.Words.{scan_identifier, is_alpha, is_digit}
use my_llvm_c.Lexer.Number.{scan_number}
use my_llvm_c.Lexer.Operator.{scan_operator}

-- The last tests of `scanToken` before its switch, by the first character.
unfoldable pub scan_plain : Lexer → Scanned
unfolding is_alpha is_digit
scan_plain lx =
    let ch = peek lx in
    if is_alpha ch || ch == b'_' || leb 0x80 ch
    then scan_identifier lx
    else if is_digit ch || (ch == b'.' && is_digit (peek_next lx))
    then scan_number lx
    else if ch == b'"'
    then scan_string lx
    else if ch == b'\''
    then scan_char lx
    else scan_operator ch lx

-- The prefixes `u8"`, `u16"`, `u32"`, `u"`, `U"` and `L"`, and `"""`.
unfoldable pub scan_string_prefix : Lexer → Scanned
scan_string_prefix lx =
    let ch = peek lx in
    let c1 = peek_next lx in
    let c2 = peek_next2 lx in
    let c3 = peek_next3 lx in
    if ch == b'u' && c1 == b'8' && c2 == b'"'
    then scan_prefixed_string u8 (advance (advance lx))
    else if ch == b'u' && c1 == b'1' && c2 == b'6' && c3 == b'"'
    then scan_prefixed_string u16 (advance (advance (advance lx)))
    else if ch == b'u' && c1 == b'3' && c2 == b'2' && c3 == b'"'
    then scan_prefixed_string u32 (advance (advance (advance lx)))
    else if ch == b'u' && c1 == b'"'
    then scan_prefixed_string u16 (advance lx)
    else if ch == b'U' && c1 == b'"'
    then scan_prefixed_string u32 (advance lx)
    else if ch == b'L' && c1 == b'"'
    then scan_prefixed_string u32 (advance lx)
    else if ch == b'"' && c1 == b'"' && c2 == b'"'
    then scan_multiline_string lx
    else scan_plain lx

-- The rest of `scanToken`, once the token's start is marked: first the prefixes of characters.
unfoldable pub scan_marked : Lexer → Scanned
scan_marked lx =
    let ch = peek lx in
    let c1 = peek_next lx in
    if ch == b'u' && c1 == b'8' && peek_next2 lx == b'\''
    then scan_char (advance (advance lx))
    else if (ch == b'u' || ch == b'U' || ch == b'L') && c1 == b'\''
    then scan_char (advance lx)
    else if ch == b'R' && c1 == b'"'
    then scan_raw_string lx
    else if ch == b'r' && c1 == b'"'
    then scan_string lx
    else scan_string_prefix lx

unfoldable pub scan_token : Lexer → Scanned
scan_token lx = scan_marked (mark_token lx)

-- One round's start: `skipTrivia(); m_startPos = m_currentPos;`
unfoldable pub to_token : Lexer → Lexer
to_token lx = mark_start (skip_trivia lx)

-- The loop of `tokenize`. Each round takes a byte at least, so the bytes left bound the rounds.
unfoldable pub tokenize_fuel : ℕ → Lexer → List Token × Lexer
tokenize_fuel zero lx = ([], lx)
tokenize_fuel (suc fuel) lx =
    let start = to_token lx in
    let (token, next) = scan_token start in
    let (tokens, end) = tokenize_fuel fuel next in
    if is_eof lx
    then ([], lx)
    else if is_eof start
    then ([], start)
    else if is_unknown token.type
    then (tokens, end)
    else (token ∷ tokens, end)

unfoldable pub tokenize : Lexer → List Token × Lexer
tokenize lx = tokenize_fuel (suc (remaining lx)) lx

-- The end of `nextToken`.
unfoldable pub eos_token : Lexer → Scanned
eos_token lx = let end = mark_token lx in (make_token end token_eos [] monostate, end)

-- The loop of `nextToken`.
unfoldable pub next_token_fuel : ℕ → Lexer → Scanned
next_token_fuel zero lx = eos_token lx
next_token_fuel (suc fuel) lx =
    let start = to_token lx in
    let (token, next) = scan_token start in
    let later = next_token_fuel fuel next in
    if is_eof lx
    then eos_token lx
    else if is_eof start
    then eos_token start
    else if is_unknown token.type
    then later
    else (token, next)

unfoldable pub next_token : Lexer → Scanned
next_token lx = next_token_fuel (suc (remaining lx)) lx

-- What a client does: a fresh lexer on a file's text.
unfoldable pub lex : Bytes → Bytes → List Token × Lexer
lex filename source = tokenize (new_lexer filename source)
