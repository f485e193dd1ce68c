-- ===== src/Diagnostic.antt =====
-- src/sema/Diagnostic.h: a diagnostic as the lexer reports it. Only the lexer's codes are named;
-- the level is always `Error` there.
use Prim.Native.String.{String}
use my_llvm_c.Prelude.{ℕ, Bytes}

pub data DiagnosticCode : Type 0 where
  lex_invalid_character lex_unterminated_literal lex_integer_overflow : DiagnosticCode
  lex_invalid_digit_separator : DiagnosticCode

pub record Diagnostic : Type 0 where
  pub code : DiagnosticCode
  pub message : String
  pub file : Bytes
  pub line : ℕ
  pub column : ℕ
