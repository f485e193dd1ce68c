-- ===== src/Lexer/Trivia.antt =====
-- src/frontend/Lexer.cpp: white space and comments.
use my_llvm_c.Prelude.{ℕ, zero, suc, ◌+◌, Bool, true, false, not, ◌&&◌, ◌||◌, ◌==◌, if◌then◌else◌}
use my_llvm_c.Lexer.State.{
  Lexer, is_eof, peek, peek_next, advance, advance_while, report, remaining,
}
use my_llvm_c.Diagnostic.{lex_unterminated_literal}

-- `while (!isEof() && peek() != '\n')`, the test of `advanceNextLine`.
unfoldable pub in_line : Lexer → Bool
unfolding peek
in_line lx = not (is_eof lx) && not (peek lx == b'\n')

unfoldable pub advance_next_line : Lexer → Lexer
unfolding in_line
advance_next_line lx = advance (advance_while in_line lx)

-- The cases of the switch of `skipWhitespace`: blank, tab, `\r`, `\v`, `\n`.
unfoldable pub at_space : Lexer → Bool
unfolding peek
at_space lx = let ch = peek lx in ch == b' ' || ch == 9 || ch == 13 || ch == 11 || ch == b'\n'

unfoldable pub skip_whitespace : Lexer → Lexer
unfolding at_space
skip_whitespace lx = advance_while at_space lx

unfoldable pub in_block_comment : Lexer → Bool
unfolding peek
in_block_comment lx = not (is_eof lx) && not (peek lx == b'*' && peek_next lx == b'/')

-- The body of a block comment from its `/*` on; `true` when it ends, `false` for `return`.
unfoldable pub skip_block_comment : Lexer → Lexer × Bool
unfolding in_block_comment
skip_block_comment lx =
    let inside = advance_while in_block_comment (advance (advance lx)) in
    if is_eof inside
    then (
      report lex_unterminated_literal "unterminated block comment" lx.line_num (lx.col_num + 1)
          inside,
      false,
    )
    else (advance (advance inside), true)

unfoldable pub at_line_comment : Lexer → Bool
unfolding peek
at_line_comment lx = peek lx == b'/' && peek_next lx == b'/'

unfoldable pub at_block_comment : Lexer → Bool
unfolding peek
at_block_comment lx = peek lx == b'/' && peek_next lx == b'*'

-- The loop of `skipComment`; each round advances.
unfoldable pub skip_comment_fuel : ℕ → Lexer → Lexer
skip_comment_fuel zero lx = lx
skip_comment_fuel (suc fuel) lx =
    let (block, ended) = skip_block_comment lx in
    let after_line = skip_comment_fuel fuel (advance_next_line lx) in
    let after_block = skip_comment_fuel fuel block in
    if at_line_comment lx
    then after_line
    else if at_block_comment lx
    then (if ended then after_block else block)
    else lx

unfoldable pub skip_comment : Lexer → Lexer
unfolding skip_comment_fuel remaining
skip_comment lx = skip_comment_fuel (suc (remaining lx)) lx

unfoldable pub at_comment : Lexer → Bool
unfolding peek
at_comment lx = peek lx == b'/' && (peek_next lx == b'/' || peek_next lx == b'*')

-- The loop of `skipTrivia`.
unfoldable pub skip_trivia_fuel : ℕ → Lexer → Lexer
skip_trivia_fuel zero lx = lx
skip_trivia_fuel (suc fuel) lx =
    let bare = skip_whitespace lx in
    let rest = skip_trivia_fuel fuel (skip_comment bare) in if at_comment bare then rest else bare

unfoldable pub skip_trivia : Lexer → Lexer
unfolding skip_trivia_fuel remaining
skip_trivia lx = skip_trivia_fuel (suc (remaining lx)) lx
