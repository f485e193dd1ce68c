-- ===== src/Lexer/Quoted.antt =====
-- src/frontend/Lexer.cpp: string and character literals.
use Prim.Native.String.{String}
use my_llvm_c.Prelude.{
  ℕ, zero, suc, ◌+◌, Bool, true, false, not, ◌&&◌, ◌||◌, Bytes, [], ◌∷◌, ◌++◌, Option, none, some,
  ltb, leb, ◌==◌, if◌then◌else◌, length, drop,
}
use my_llvm_c.Token.{Token, token_string, token_char, monostate, StringLiteralPrefix}
use my_llvm_c.Lexer.State.{
  Lexer, is_eof, peek, peek_next, peek_next2, advance, advance_while, report_token, remaining,
  make_token, lexeme,
}
use my_llvm_c.Diagnostic.{lex_unterminated_literal}

-- A token and the lexer behind it.
abbrev pub Scanned : Type 0
Scanned = Token × Lexer

unfoldable pub unterminated : String → Lexer → Lexer
unterminated msg lx = report_token lex_unterminated_literal msg lx

unfoldable pub string_token : Lexer → Scanned
string_token lx = (make_token lx token_string (lexeme lx) monostate, lx)

-- A `while (true)` loop: a round gives the next state, and `true` for `break`.
unfoldable pub loop_fuel : (Lexer → Lexer × Bool) → ℕ → Lexer → Lexer
loop_fuel body zero lx = lx
loop_fuel body (suc fuel) lx =
    let (next, done) = body lx in let rest = loop_fuel body fuel next in if done then next else rest

-- Each round that goes on advances, so the bytes left and one round more are enough.
unfoldable pub loop : (Lexer → Lexer × Bool) → Lexer → Lexer
unfolding loop_fuel remaining
loop body lx = loop_fuel body (suc (remaining lx)) lx

unfoldable pub in_braces : Lexer → Bool
unfolding peek
in_braces lx = not (is_eof lx) && not (peek lx == b'}')

-- `\u{XXXX}` from the `u` on.
unfoldable pub unicode_escape : Lexer → Lexer
unfolding in_braces
unicode_escape lx =
    let opened = advance lx in
    let inside = advance_while in_braces (advance opened) in
    if peek opened == b'{' then (if peek inside == b'}' then advance inside else inside) else opened

-- One round of the loop of a quoted literal: `scanString`, `scanPrefixedString`, `scanChar`.
unfoldable pub quoted_round : ℕ → String → Lexer → Lexer × Bool
unfolding unterminated unicode_escape
quoted_round quote msg lx =
    let escaped = advance lx in
    if is_eof lx
    then (unterminated msg lx, true)
    else if peek lx == quote
    then (advance lx, true)
    else if peek lx == b'\\'
    then (if is_eof escaped
        then (unterminated msg escaped, true)
        else if peek escaped == b'u'
        then (unicode_escape escaped, false)
        else (advance escaped, false))
    else (advance lx, false)

-- One round of a raw string `r"..."`.
unfoldable pub raw_round : Lexer → Lexer × Bool
unfolding unterminated
raw_round lx =
    if is_eof lx
    then (unterminated "unterminated raw string literal" lx, true)
    else if peek lx == b'"'
    then (advance lx, true)
    else (advance lx, false)

unfoldable pub scan_string : Lexer → Scanned
unfolding string_token loop quoted_round raw_round
scan_string lx =
    if peek lx == b'r' && peek_next lx == b'"'
    then string_token (loop raw_round (advance (advance lx)))
    else string_token (loop (quoted_round b'"' "unterminated string literal") (advance lx))

-- One round of a multiline string.
unfoldable pub multiline_round : Lexer → Lexer × Bool
unfolding unterminated
multiline_round lx =
    if is_eof lx
    then (unterminated "unterminated multiline string literal" lx, true)
    else if peek lx == b'"' && peek_next lx == b'"' && peek_next2 lx == b'"'
    then (advance (advance (advance lx)), true)
    else (advance lx, false)

unfoldable pub scan_multiline_string : Lexer → Scanned
unfolding string_token loop multiline_round
scan_multiline_string lx =
    let end = loop multiline_round (advance (advance (advance lx))) in
    let token = (string_token end).0 in (record token { is_multiline_string = true }, end)

unfoldable pub scan_prefixed_string : StringLiteralPrefix → Lexer → Scanned
unfolding string_token loop quoted_round
scan_prefixed_string prefix lx =
    let end = loop (quoted_round b'"' "unterminated string literal") (advance lx) in
    let token = (string_token end).0 in (record token { string_prefix = prefix }, end)

unfoldable pub scan_char : Lexer → Scanned
unfolding loop quoted_round
scan_char lx =
    let end = loop (quoted_round b'\'' "unterminated character literal") (advance lx) in
    (make_token end token_char (lexeme end) monostate, end)

-- `std::isspace` in the C locale.
unfoldable pub is_space : ℕ → Bool
is_space c = c == 32 || (leb 9 c && leb c 13)

-- The loop that reads the delimiter of `R"delim(`. It stops after 16 characters.
unfoldable pub raw_delimiter : ℕ → Bytes → Lexer → Bytes × Lexer
unfolding is_space
raw_delimiter zero delim lx = (delim, lx)
raw_delimiter (suc room) delim lx =
    let c = peek lx in
    let next = raw_delimiter room (delim ++ c ∷ []) (advance lx) in
    if not (is_eof lx) && not (c == b'(')
    then (if c == b'"' || c == b'\\' || is_space c
        then (delim, report_token lex_unterminated_literal "invalid raw string delimiter" lx)
        else next)
    else (delim, lx)

unfoldable pub starts_with : Bytes → Bytes → Bool
starts_with [] s = true
starts_with (p ∷ ps) [] = false
starts_with (p ∷ ps) (c ∷ s) = p == c && starts_with ps s

-- `s.find(pattern)`, as an offset; `none` is `npos`.
unfoldable pub find : Bytes → Bytes → Option ℕ
unfolding starts_with
find pattern [] = if starts_with pattern [] then some 0 else none
find pattern (c ∷ s) =
    let later = find pattern s in
    if starts_with pattern (c ∷ s)
    then some 0
    else elim later [ none ↦ none | some i ↦ some (suc i) ]

unfoldable pub not_eof : Lexer → Bool
unfolding is_eof
not_eof lx = not (is_eof lx)

unfoldable pub before : ℕ → Lexer → Bool
unfolding is_eof
before end lx = not (is_eof lx) && ltb lx.current_pos end

-- Both error paths of `scanRawString`: report, and take all that is left.
unfoldable pub raw_string_error : Lexer → Scanned
unfolding unterminated string_token not_eof
raw_string_error lx =
    string_token (advance_while not_eof (unterminated "unterminated raw string literal" lx))

-- The end of a raw string, by the offset at which its terminator was found.
unfoldable pub raw_string_end : ℕ → Option ℕ → Lexer → Scanned
unfolding raw_string_error string_token before
raw_string_end size none lx = raw_string_error lx
raw_string_end size (some i) lx =
    string_token (advance_while (before (lx.current_pos + i + size)) lx)

-- From behind the `(` on: the search for `)delim"`.
unfoldable pub raw_string_body : Bytes → Lexer → Scanned
unfolding raw_string_end find
raw_string_body delim lx =
    let terminator = (b')' ∷ delim) ++ b'"' ∷ [] in
    raw_string_end (length terminator) (find terminator (drop lx.current_pos lx.source)) lx

unfoldable pub scan_raw_string : Lexer → Scanned
unfolding raw_delimiter raw_string_error raw_string_body
scan_raw_string lx =
    let (delim, opened) = raw_delimiter 16 [] (advance (advance lx)) in
    if peek opened == b'(' then raw_string_body delim (advance opened) else raw_string_error opened
