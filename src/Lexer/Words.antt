-- ===== src/Lexer/Words.antt =====
-- src/frontend/Lexer.cpp: the keyword table, identifiers and keywords.
use Prim.Native.String.{String}
use my_llvm_c.Prelude.{
  ℕ, Bool, ◌&&◌, ◌||◌, Bytes, List, [], ◌∷◌, Option, none, some, leb, ◌==◌, if◌then◌else◌, codes,
  bytes_eq,
}
use my_llvm_c.Token.{
  TokenType, token_identifier, monostate, token_alignof, token_asm, token_atomic, token_auto,
  token_bool, token_break, token_case, token_char16, token_char32, token_char8, token_char_kw,
  token_class, token_const, token_constexpr, token_continue, token_default, token_defer, token_do,
  token_else, token_enum, token_export, token_extern, token_false, token_float128, token_float16,
  token_float32, token_float64, token_for, token_if, token_import, token_inline, token_int128,
  token_int16, token_int32, token_int64, token_int8, token_isize, token_module, token_namespace,
  token_null, token_offsetof, token_operator, token_private, token_public, token_restrict,
  token_return, token_sizeof, token_static, token_struct, token_switch, token_template,
  token_thread_local, token_true, token_typedef, token_typename, token_uint128, token_uint16,
  token_uint32, token_uint64, token_uint8, token_union, token_usize, token_void, token_volatile,
  token_while,
}
use my_llvm_c.Lexer.State.{Lexer, peek, advance_while, make_token, lexeme}
use my_llvm_c.Lexer.Quoted.{Scanned}

-- `keywordMap`.
abbrev pub keyword_map : List (String × TokenType)
keyword_map =
    ("char", token_char_kw)
    ∷ ("void", token_void)
    ∷ ("if", token_if)
    ∷ ("else", token_else)
    ∷ ("switch", token_switch)
    ∷ ("case", token_case)
    ∷ ("default", token_default)
    ∷ ("for", token_for)
    ∷ ("while", token_while)
    ∷ ("do", token_do)
    ∷ ("break", token_break)
    ∷ ("continue", token_continue)
    ∷ ("return", token_return)
    ∷ ("struct", token_struct)
    ∷ ("union", token_union)
    ∷ ("enum", token_enum)
    ∷ ("class", token_class)
    ∷ ("const", token_const)
    ∷ ("auto", token_auto)
    ∷ ("constexpr", token_constexpr)
    ∷ ("static", token_static)
    ∷ ("extern", token_extern)
    ∷ ("volatile", token_volatile)
    ∷ ("sizeof", token_sizeof)
    ∷ ("typedef", token_typedef)
    ∷ ("template", token_template)
    ∷ ("typename", token_typename)
    ∷ ("operator", token_operator)
    ∷ ("inline", token_inline)
    ∷ ("restrict", token_restrict)
    ∷ ("char8", token_char8)
    ∷ ("char16", token_char16)
    ∷ ("char32", token_char32)
    ∷ ("thread_local", token_thread_local)
    ∷ ("atomic", token_atomic)
    ∷ ("bool", token_bool)
    ∷ ("true", token_true)
    ∷ ("false", token_false)
    ∷ ("null", token_null)
    ∷ ("namespace", token_namespace)
    ∷ ("module", token_module)
    ∷ ("import", token_import)
    ∷ ("export", token_export)
    ∷ ("public", token_public)
    ∷ ("private", token_private)
    ∷ ("defer", token_defer)
    ∷ ("alignof", token_alignof)
    ∷ ("offsetof", token_offsetof)
    ∷ ("asm", token_asm)
    ∷ ("int8", token_int8)
    ∷ ("int16", token_int16)
    ∷ ("int32", token_int32)
    ∷ ("int64", token_int64)
    ∷ ("int128", token_int128)
    ∷ ("uint8", token_uint8)
    ∷ ("uint16", token_uint16)
    ∷ ("uint32", token_uint32)
    ∷ ("uint64", token_uint64)
    ∷ ("uint128", token_uint128)
    ∷ ("isize", token_isize)
    ∷ ("usize", token_usize)
    ∷ ("float32", token_float32)
    ∷ ("float64", token_float64)
    ∷ ("float16", token_float16)
    ∷ ("float128", token_float128)
    ∷ ("f16", token_float16)
    ∷ ("f32", token_float32)
    ∷ ("f64", token_float64)
    ∷ ("f128", token_float128)
    ∷ []

-- `keywordMap.find`.
unfoldable pub find_keyword : Bytes → List (String × TokenType) → Option TokenType
unfolding bytes_eq
find_keyword word [] = none
find_keyword word ((k, t) ∷ m) = if bytes_eq (codes k) word then some t else find_keyword word m

-- `std::isalpha`, `std::isdigit` and `std::isalnum` in the C locale.
unfoldable pub is_alpha : ℕ → Bool
is_alpha c = (leb b'a' c && leb c b'z') || (leb b'A' c && leb c b'Z')

unfoldable pub is_digit : ℕ → Bool
is_digit c = leb b'0' c && leb c b'9'

unfoldable pub is_alnum : ℕ → Bool
unfolding is_alpha is_digit
is_alnum c = is_alpha c || is_digit c

-- The test of the loop of `scanIdentifier`; `(ch & 0x80) != 0` says that the byte is 128 or more.
unfoldable pub at_word : Lexer → Bool
unfolding is_alnum peek
at_word lx = let ch = peek lx in is_alnum ch || ch == b'_' || leb 0x80 ch

unfoldable pub keyword : Bytes → Option TokenType
unfolding find_keyword
keyword word = find_keyword word keyword_map

-- The token for the word that was scanned, by what the table holds.
unfoldable pub word_token : Option TokenType → Lexer → Scanned
word_token (some type) end = (make_token end type (lexeme end) monostate, end)
word_token none end = (make_token end token_identifier (lexeme end) monostate, end)

-- `keyword` is left shut here: it is named where a test has to look a word up.
unfoldable pub scan_identifier : Lexer → Scanned
unfolding at_word word_token
scan_identifier lx = let end = advance_while at_word lx in word_token (keyword (lexeme end)) end
