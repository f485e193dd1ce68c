-- ===== src/TokenStream.antt =====
-- src/frontend/TokenStream.h and src/frontend/TokenStream.cpp: a look-ahead buffer over the lexer.
-- A token that was moved out of the buffer stays in the model's buffer: it stands before `pos`, where the code
-- reads no more.
pub mod Sequence
pub mod Growth
pub mod Refines
mod Tests
use my_llvm_c.Prelude.{
  ℕ, zero, suc, ◌+◌, ◌-◌, Bool, true, false, not, ◌&&◌, List, [], ◌∷◌, ◌++◌, Option, none, some,
  leb, if◌then◌else◌, length, get_elem?,
}
use my_llvm_c.Token.{Token, TokenType, is_eos}
use my_llvm_c.Token.Index.{type_index, same_type}
use my_llvm_c.Lexer.State.{Lexer}
use my_llvm_c.Lexer.Scan.{next_token}

pub record TokenStream : Type 0 where
  pub lexer : Lexer
  pub buffer : List Token
  pub pos : ℕ
  pub ended : Bool

unfoldable pub new_stream : Lexer → TokenStream
new_stream lx = record { lexer = lx; buffer = []; pos = 0; ended = false }

-- The body of the loop of `ensureBuffered`.
unfoldable pub push_next : TokenStream → TokenStream
push_next ts =
    let (token, lx) = next_token ts.lexer in
    record ts {
      lexer = lx;
      buffer = ts.buffer ++ token ∷ [];
      ended = if is_eos token.type then true else ts.ended;
    }

-- The test of the loop.
unfoldable pub is_short : ℕ → TokenStream → Bool
is_short offset ts = leb (length ts.buffer) (ts.pos + offset) && not ts.ended

unfoldable pub ensure_fuel : ℕ → ℕ → TokenStream → TokenStream
ensure_fuel zero offset ts = ts
ensure_fuel (suc fuel) offset ts =
    let more = ensure_fuel fuel offset (push_next ts) in if is_short offset ts then more else ts

-- Each round adds a token, so the missing tokens bound the rounds.
unfoldable pub ensure_buffered : ℕ → TokenStream → TokenStream
ensure_buffered offset ts = ensure_fuel (suc (ts.pos + offset) - length ts.buffer) offset ts

-- `none` where the code reads past the end of the buffer.
unfoldable pub peek_token : ℕ → TokenStream → Option Token × TokenStream
peek_token offset ts = let b = ensure_buffered offset ts in (get_elem? b.buffer (b.pos + offset), b)

unfoldable pub at_end : TokenStream → Bool × TokenStream
at_end ts = let b = ensure_buffered 0 ts in (b.ended && leb (length b.buffer - 1) b.pos, b)

unfoldable pub consume : TokenStream → Option Token × TokenStream
consume ts =
    let (end, b) = at_end (ensure_buffered 0 ts) in
    if end
    then (get_elem? b.buffer (length b.buffer - 1), b)
    else (get_elem? b.buffer b.pos, record b { pos = b.pos + 1 })

unfoldable pub current : TokenStream → Option Token × TokenStream
current ts = let b = ensure_buffered 0 ts in (get_elem? b.buffer b.pos, b)

-- The result of `expect`; `unexpected` holds what the exception's message says.
pub data Expected : Type 0 where
  found : Token → Expected
  unexpected : (expected got line column : ℕ) → Expected
  out_of_bounds : Expected

unfoldable pub check_expected : TokenType → Option Token → Expected
check_expected type none = out_of_bounds
check_expected type (some t) =
    if same_type t.type type
    then found t
    else unexpected (type_index type) (type_index t.type) t.line t.column

unfoldable pub expect : TokenType → TokenStream → Expected × TokenStream
expect type ts = let (t, b) = consume ts in (check_expected type t, b)

unfoldable pub has_type : TokenType → Option Token → Bool
has_type type none = false
has_type type (some t) = same_type t.type type

unfoldable pub match_type : TokenType → TokenStream → Bool × TokenStream
match_type type ts =
    let (t, b) = peek_token 0 ts in if has_type type t then (true, (consume b).1) else (false, b)
