-- ===== src/Lexer/State.antt =====
-- src/frontend/Lexer.cpp: the lexer's state and its primitive moves.
-- The source is its bytes, and a position indexes it. Positions, lines and columns are `size_t` and
-- `int` in the source, and stay below the size of a file, which is assumed to be below 2 ^ 31.
use Prim.Native.String.{String}
use my_llvm_c.Prelude.{
  ℕ, zero, suc, ◌+◌, ◌-◌, Bool, false, Bytes, List, [], ◌∷◌, ◌++◌, leb, ◌==◌, if◌then◌else◌, length,
  get_or, slice,
}
use my_llvm_c.Token.{Token, TokenType, TokenValue, no_kind, no_prefix}
use my_llvm_c.Diagnostic.{Diagnostic, DiagnosticCode}

-- `class Lexer`.
pub record Lexer : Type 0 where
  pub source : Bytes
  pub filename : Bytes
  pub start_pos : ℕ
  pub current_pos : ℕ
  pub line_num : ℕ
  pub col_num : ℕ
  pub token_start_line : ℕ
  pub token_start_col : ℕ
  pub diagnostics : List Diagnostic

-- The constructor, with the members' default initialisers.
unfoldable pub new_lexer : Bytes → Bytes → Lexer
new_lexer filename source = record {
  source = source;
  filename = filename;
  start_pos = 0;
  current_pos = 0;
  line_num = 1;
  col_num = 0;
  token_start_line = 1;
  token_start_col = 1;
  diagnostics = [];
}

unfoldable pub is_eof : Lexer → Bool
is_eof lx = leb (length lx.source) lx.current_pos

-- A `std::string` is read as 0 at its end.
unfoldable pub peek : Lexer → ℕ
unfolding is_eof
peek lx = if is_eof lx then 0 else get_or lx.source lx.current_pos 0

unfoldable pub peek_next : Lexer → ℕ
unfolding is_eof
peek_next lx = if is_eof lx then 0 else get_or lx.source (lx.current_pos + 1) 0

unfoldable pub peek_next2 : Lexer → ℕ
unfolding is_eof
peek_next2 lx = if is_eof lx then 0 else get_or lx.source (lx.current_pos + 2) 0

unfoldable pub peek_next3 : Lexer → ℕ
unfolding is_eof
peek_next3 lx = if is_eof lx then 0 else get_or lx.source (lx.current_pos + 3) 0

-- `advance`, for its effect; the character that it returns is `peek` before it.
unfoldable pub advance : Lexer → Lexer
unfolding peek
advance lx =
    if peek lx == b'\n'
    then record lx { line_num = lx.line_num + 1; col_num = 0; current_pos = lx.current_pos + 1 }
    else record lx { col_num = lx.col_num + 1; current_pos = lx.current_pos + 1 }

-- `lexeme` and `lexname`: `m_source.substr(m_startPos, m_currentPos - m_startPos)`.
unfoldable pub lexeme : Lexer → Bytes
lexeme lx = slice lx.source lx.start_pos (lx.current_pos - lx.start_pos)

unfoldable pub make_token : Lexer → TokenType → Bytes → TokenValue → Token
make_token lx type text value = record {
  type = type;
  lexeme = text;
  value = value;
  filename = lx.filename;
  line = lx.token_start_line;
  column = lx.token_start_col;
  literal_kind = no_kind;
  string_prefix = no_prefix;
  is_multiline_string = false;
}

unfoldable pub report : DiagnosticCode → String → ℕ → ℕ → Lexer → Lexer
report code msg line col lx = record lx {
  diagnostics =
      lx.diagnostics
      ++ (record { code = code; message = msg; file = lx.filename; line = line; column = col }
          ∷ []);
}

-- `report` at the start of the token being scanned.
unfoldable pub report_token : DiagnosticCode → String → Lexer → Lexer
unfolding report
report_token code msg lx = report code msg lx.token_start_line lx.token_start_col lx

-- `m_startPos = m_currentPos`, in `tokenize` and `nextToken`.
unfoldable pub mark_start : Lexer → Lexer
mark_start lx = record lx { start_pos = lx.current_pos }

-- The first two assignments of `scanToken`, and those at the end of `nextToken`.
unfoldable pub mark_token : Lexer → Lexer
mark_token lx = record lx { token_start_line = lx.line_num; token_start_col = lx.col_num + 1 }

-- The bytes left: each loop below advances at most so often before it sees the end.
unfoldable pub remaining : Lexer → ℕ
remaining lx = length lx.source - lx.current_pos

-- `while (test()) advance();` in at most `fuel` rounds.
unfoldable pub advance_while_fuel : (Lexer → Bool) → ℕ → Lexer → Lexer
advance_while_fuel test zero lx = lx
advance_while_fuel test (suc fuel) lx =
    let rest = advance_while_fuel test fuel (advance lx) in if test lx then rest else lx

-- Every such test fails at the end of the source, so the bytes left are rounds enough.
unfoldable pub advance_while : (Lexer → Bool) → Lexer → Lexer
unfolding advance_while_fuel remaining
advance_while test lx = advance_while_fuel test (remaining lx) lx
