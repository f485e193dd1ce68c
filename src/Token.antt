-- ===== src/Token.antt =====
-- src/frontend/Token.h and src/support/LiteralKind.h: tokens as the lexer makes them.
-- A number is its value below 2 ^ 128. A `double` is kept as the text that `std::strtod` reads:
-- its conversion is the C library's.
pub mod Index
use my_llvm_c.Prelude.{ℕ, Bool, true, false, Bytes}

pub data TokenType : Type 0 where
  token_unknown token_identifier token_number token_string token_char token_float : TokenType
  token_char_kw token_void token_if token_else token_for token_while token_do token_return :
      TokenType
  token_break token_continue token_struct token_union token_enum token_class token_const : TokenType
  token_auto token_static token_extern token_volatile token_asm token_sizeof token_typedef :
      TokenType
  token_inline token_restrict token_bool token_switch token_case token_default : TokenType
  token_constexpr token_operator token_true token_false token_null token_namespace : TokenType
  token_module token_import token_export token_public token_private token_defer : TokenType
  token_alignof token_offsetof token_template token_typename token_int8 token_int16 : TokenType
  token_int32 token_int64 token_int128 token_uint8 token_uint16 token_uint32 token_uint64 :
      TokenType
  token_uint128 token_isize token_usize token_float32 token_float64 token_float16 : TokenType
  token_float128 token_char8 token_char16 token_char32 token_thread_local token_atomic : TokenType
  token_plus token_minus token_star token_slash token_percent token_eq token_not_eq : TokenType
  token_assign token_plus_eq token_minus_eq token_star_eq token_slash_eq token_lt token_gt :
      TokenType
  token_le token_ge token_and token_or token_not token_bit_and token_bit_or token_caret : TokenType
  token_tilde token_lshift token_rshift token_plus_plus token_minus_minus token_question : TokenType
  token_colon token_colon_colon token_amp_eq token_pipe_eq token_caret_eq token_lshift_eq :
      TokenType
  token_rshift_eq token_percent_eq token_semicolon token_comma token_dot token_arrow : TokenType
  token_lparen token_rparen token_lbrace token_rbrace token_lbracket token_rbracket : TokenType
  token_ellipsis token_hash token_eos : TokenType

pub data LiteralKind : Type 0 where
  no_kind int uint long ulong float16 float32 float64 float128 : LiteralKind

pub data StringLiteralPrefix : Type 0 where
  no_prefix u8 u16 u32 : StringLiteralPrefix

-- `TokenValue`; `monostate` is the default.
pub data TokenValue : Type 0 where
  monostate : TokenValue
  integer : ℕ → TokenValue
  double : Bytes → TokenValue

pub record Token : Type 0 where
  pub type : TokenType
  pub lexeme : Bytes
  pub value : TokenValue
  pub filename : Bytes
  pub line : ℕ
  pub column : ℕ
  pub literal_kind : LiteralKind
  pub string_prefix : StringLiteralPrefix
  pub is_multiline_string : Bool

-- `type == TokenType::TOKEN_UNKNOWN` and `type == TokenType::TOKEN_EOS`.
unfoldable pub is_unknown : TokenType → Bool
is_unknown token_unknown = true
is_unknown _ = false

unfoldable pub is_eos : TokenType → Bool
is_eos token_eos = true
is_eos _ = false

-- The types that the last switch of `scanToken` makes: operators, brackets and separators.
unfoldable pub is_punctuator : TokenType → Bool
is_punctuator token_plus = true
is_punctuator token_minus = true
is_punctuator token_star = true
is_punctuator token_slash = true
is_punctuator token_percent = true
is_punctuator token_eq = true
is_punctuator token_not_eq = true
is_punctuator token_assign = true
is_punctuator token_plus_eq = true
is_punctuator token_minus_eq = true
is_punctuator token_star_eq = true
is_punctuator token_slash_eq = true
is_punctuator token_lt = true
is_punctuator token_gt = true
is_punctuator token_le = true
is_punctuator token_ge = true
is_punctuator token_and = true
is_punctuator token_or = true
is_punctuator token_not = true
is_punctuator token_bit_and = true
is_punctuator token_bit_or = true
is_punctuator token_caret = true
is_punctuator token_tilde = true
is_punctuator token_lshift = true
is_punctuator token_rshift = true
is_punctuator token_plus_plus = true
is_punctuator token_minus_minus = true
is_punctuator token_question = true
is_punctuator token_colon = true
is_punctuator token_colon_colon = true
is_punctuator token_amp_eq = true
is_punctuator token_pipe_eq = true
is_punctuator token_caret_eq = true
is_punctuator token_lshift_eq = true
is_punctuator token_rshift_eq = true
is_punctuator token_percent_eq = true
is_punctuator token_semicolon = true
is_punctuator token_comma = true
is_punctuator token_dot = true
is_punctuator token_arrow = true
is_punctuator token_lparen = true
is_punctuator token_rparen = true
is_punctuator token_lbrace = true
is_punctuator token_rbrace = true
is_punctuator token_lbracket = true
is_punctuator token_rbracket = true
is_punctuator token_ellipsis = true
is_punctuator token_hash = true
is_punctuator _ = false
