-- ===== src/Lexer/Operator.antt =====
-- src/frontend/Lexer.cpp: the switch of `scanToken` on operators and punctuation. Each case makes
-- its token before the last `advance()` of `scanToken`, as the source does: `emit` is that end.
use my_llvm_c.Prelude.{ℕ, ◌+◌, ◌&&◌, [], ◌∷◌, ◌==◌, if◌then◌else◌, get_or}
use my_llvm_c.Token.{
  TokenType, monostate, token_unknown, token_plus, token_minus, token_star, token_slash,
  token_percent, token_eq, token_not_eq, token_assign, token_plus_eq, token_minus_eq, token_star_eq,
  token_slash_eq, token_lt, token_gt, token_le, token_ge, token_and, token_or, token_not,
  token_bit_and, token_bit_or, token_caret, token_tilde, token_lshift, token_rshift,
  token_plus_plus, token_minus_minus, token_question, token_colon, token_colon_colon, token_amp_eq,
  token_pipe_eq, token_caret_eq, token_lshift_eq, token_rshift_eq, token_percent_eq,
  token_semicolon, token_comma, token_dot, token_arrow, token_lparen, token_rparen, token_lbrace,
  token_rbrace, token_lbracket, token_rbracket, token_ellipsis, token_hash,
}
use my_llvm_c.Lexer.State.{Lexer, peek_next, advance, make_token, lexeme, report_token}
use my_llvm_c.Lexer.Quoted.{Scanned}
use my_llvm_c.Diagnostic.{lex_invalid_character}

-- `token = makeToken(type, lexeme()); ... advance(); return token;`
unfoldable pub emit : TokenType → Lexer → Scanned
emit type lx = (make_token lx type (lexeme lx) monostate, advance lx)

-- A case with one longer operator, ended by `second`.
unfoldable pub one_of_two : ℕ → TokenType → TokenType → Lexer → Scanned
one_of_two second longer shorter lx =
    if peek_next lx == second then emit longer (advance lx) else emit shorter lx

-- A case with two longer operators.
unfoldable pub one_of_three : ℕ → TokenType → ℕ → TokenType → TokenType → Lexer → Scanned
one_of_three c1 t1 c2 t2 shorter lx =
    if peek_next lx == c1
    then emit t1 (advance lx)
    else if peek_next lx == c2
    then emit t2 (advance lx)
    else emit shorter lx

unfoldable pub scan_minus : Lexer → Scanned
scan_minus lx =
    if peek_next lx == b'-'
    then emit token_minus_minus (advance lx)
    else if peek_next lx == b'='
    then emit token_minus_eq (advance lx)
    else if peek_next lx == b'>'
    then emit token_arrow (advance lx)
    else emit token_minus lx

-- The cases `<` and `>`: an equality, a shift, a shift with assignment, or the bare operator.
unfoldable pub scan_angle : ℕ → TokenType → TokenType → TokenType → TokenType → Lexer → Scanned
scan_angle c or_equal shift_eq shift bare lx =
    let next = advance lx in
    if peek_next lx == b'='
    then emit or_equal next
    else if peek_next lx == c
    then (if peek_next next == b'=' then emit shift_eq (advance next) else emit shift next)
    else emit bare lx

unfoldable pub scan_dot : Lexer → Scanned
scan_dot lx =
    if peek_next lx == b'.' && get_or lx.source (lx.current_pos + 2) 0 == b'.'
    then emit token_ellipsis (advance (advance lx))
    else emit token_dot lx

-- The default case: the character is reported and dropped.
unfoldable pub scan_unknown : ℕ → Lexer → Scanned
scan_unknown ch lx =
    let reported = report_token lex_invalid_character "invalid character" lx in
    (make_token reported token_unknown (ch ∷ []) monostate, advance reported)

unfoldable pub scan_punctuation : ℕ → Lexer → Scanned
scan_punctuation ch lx =
    if ch == b'~'
    then emit token_tilde lx
    else if ch == b'?'
    then emit token_question lx
    else if ch == b'('
    then emit token_lparen lx
    else if ch == b')'
    then emit token_rparen lx
    else if ch == b'{'
    then emit token_lbrace lx
    else if ch == b'}'
    then emit token_rbrace lx
    else if ch == b'['
    then emit token_lbracket lx
    else if ch == b']'
    then emit token_rbracket lx
    else if ch == b';'
    then emit token_semicolon lx
    else if ch == b','
    then emit token_comma lx
    else if ch == b'.'
    then scan_dot lx
    else if ch == b'#'
    then emit token_hash lx
    else scan_unknown ch lx

unfoldable pub scan_operator : ℕ → Lexer → Scanned
scan_operator ch lx =
    if ch == b'+'
    then one_of_three b'+' token_plus_plus b'=' token_plus_eq token_plus lx
    else if ch == b'-'
    then scan_minus lx
    else if ch == b'*'
    then one_of_two b'=' token_star_eq token_star lx
    else if ch == b'/'
    then one_of_two b'=' token_slash_eq token_slash lx
    else if ch == b'%'
    then one_of_two b'=' token_percent_eq token_percent lx
    else if ch == b'='
    then one_of_two b'=' token_eq token_assign lx
    else if ch == b'!'
    then one_of_two b'=' token_not_eq token_not lx
    else if ch == b'<'
    then scan_angle b'<' token_le token_lshift_eq token_lshift token_lt lx
    else if ch == b'>'
    then scan_angle b'>' token_ge token_rshift_eq token_rshift token_gt lx
    else if ch == b'&'
    then one_of_three b'&' token_and b'=' token_amp_eq token_bit_and lx
    else if ch == b'|'
    then one_of_three b'|' token_or b'=' token_pipe_eq token_bit_or lx
    else if ch == b'^'
    then one_of_two b'=' token_caret_eq token_caret lx
    else if ch == b':'
    then one_of_two b':' token_colon_colon token_colon lx
    else scan_punctuation ch lx
