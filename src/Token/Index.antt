-- ===== src/Token/Index.antt =====
-- src/frontend/Token.h: the numbers of the token types, which `==` compares.
use my_llvm_c.Prelude.{ℕ, Bool, ◌==◌}
use my_llvm_c.Token.{
  TokenType, token_unknown, token_identifier, token_number, token_string, token_char, token_float,
  token_char_kw, token_void, token_if, token_else, token_for, token_while, token_do, token_return,
  token_break, token_continue, token_struct, token_union, token_enum, token_class, token_const,
  token_auto, token_static, token_extern, token_volatile, token_asm, token_sizeof, token_typedef,
  token_inline, token_restrict, token_bool, token_switch, token_case, token_default,
  token_constexpr, token_operator, token_true, token_false, token_null, token_namespace,
  token_module, token_import, token_export, token_public, token_private, token_defer, token_alignof,
  token_offsetof, token_template, token_typename, token_int8, token_int16, token_int32, token_int64,
  token_int128, token_uint8, token_uint16, token_uint32, token_uint64, token_uint128, token_isize,
  token_usize, token_float32, token_float64, token_float16, token_float128, token_char8,
  token_char16, token_char32, token_thread_local, token_atomic, token_plus, token_minus, token_star,
  token_slash, token_percent, token_eq, token_not_eq, token_assign, token_plus_eq, token_minus_eq,
  token_star_eq, token_slash_eq, token_lt, token_gt, token_le, token_ge, token_and, token_or,
  token_not, token_bit_and, token_bit_or, token_caret, token_tilde, token_lshift, token_rshift,
  token_plus_plus, token_minus_minus, token_question, token_colon, token_colon_colon, token_amp_eq,
  token_pipe_eq, token_caret_eq, token_lshift_eq, token_rshift_eq, token_percent_eq,
  token_semicolon, token_comma, token_dot, token_arrow, token_lparen, token_rparen, token_lbrace,
  token_rbrace, token_lbracket, token_rbracket, token_ellipsis, token_hash, token_eos,
}

-- `static_cast<int>(type)`
unfoldable pub type_index : TokenType → ℕ
type_index token_unknown = 0
type_index token_identifier = 1
type_index token_number = 2
type_index token_string = 3
type_index token_char = 4
type_index token_float = 5
type_index token_char_kw = 6
type_index token_void = 7
type_index token_if = 8
type_index token_else = 9
type_index token_for = 10
type_index token_while = 11
type_index token_do = 12
type_index token_return = 13
type_index token_break = 14
type_index token_continue = 15
type_index token_struct = 16
type_index token_union = 17
type_index token_enum = 18
type_index token_class = 19
type_index token_const = 20
type_index token_auto = 21
type_index token_static = 22
type_index token_extern = 23
type_index token_volatile = 24
type_index token_asm = 25
type_index token_sizeof = 26
type_index token_typedef = 27
type_index token_inline = 28
type_index token_restrict = 29
type_index token_bool = 30
type_index token_switch = 31
type_index token_case = 32
type_index token_default = 33
type_index token_constexpr = 34
type_index token_operator = 35
type_index token_true = 36
type_index token_false = 37
type_index token_null = 38
type_index token_namespace = 39
type_index token_module = 40
type_index token_import = 41
type_index token_export = 42
type_index token_public = 43
type_index token_private = 44
type_index token_defer = 45
type_index token_alignof = 46
type_index token_offsetof = 47
type_index token_template = 48
type_index token_typename = 49
type_index token_int8 = 50
type_index token_int16 = 51
type_index token_int32 = 52
type_index token_int64 = 53
type_index token_int128 = 54
type_index token_uint8 = 55
type_index token_uint16 = 56
type_index token_uint32 = 57
type_index token_uint64 = 58
type_index token_uint128 = 59
type_index token_isize = 60
type_index token_usize = 61
type_index token_float32 = 62
type_index token_float64 = 63
type_index token_float16 = 64
type_index token_float128 = 65
type_index token_char8 = 66
type_index token_char16 = 67
type_index token_char32 = 68
type_index token_thread_local = 69
type_index token_atomic = 70
type_index token_plus = 71
type_index token_minus = 72
type_index token_star = 73
type_index token_slash = 74
type_index token_percent = 75
type_index token_eq = 76
type_index token_not_eq = 77
type_index token_assign = 78
type_index token_plus_eq = 79
type_index token_minus_eq = 80
type_index token_star_eq = 81
type_index token_slash_eq = 82
type_index token_lt = 83
type_index token_gt = 84
type_index token_le = 85
type_index token_ge = 86
type_index token_and = 87
type_index token_or = 88
type_index token_not = 89
type_index token_bit_and = 90
type_index token_bit_or = 91
type_index token_caret = 92
type_index token_tilde = 93
type_index token_lshift = 94
type_index token_rshift = 95
type_index token_plus_plus = 96
type_index token_minus_minus = 97
type_index token_question = 98
type_index token_colon = 99
type_index token_colon_colon = 100
type_index token_amp_eq = 101
type_index token_pipe_eq = 102
type_index token_caret_eq = 103
type_index token_lshift_eq = 104
type_index token_rshift_eq = 105
type_index token_percent_eq = 106
type_index token_semicolon = 107
type_index token_comma = 108
type_index token_dot = 109
type_index token_arrow = 110
type_index token_lparen = 111
type_index token_rparen = 112
type_index token_lbrace = 113
type_index token_rbrace = 114
type_index token_lbracket = 115
type_index token_rbracket = 116
type_index token_ellipsis = 117
type_index token_hash = 118
type_index token_eos = 119

unfoldable pub same_type : TokenType → TokenType → Bool
same_type a b = type_index a == type_index b
