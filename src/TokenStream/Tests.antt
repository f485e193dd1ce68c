-- ===== src/TokenStream/Tests.antt =====
-- src/frontend/TokenStream.cpp: a stream on a short text.
use my_llvm_c.Prelude.{◌≡◌, ◌+◌, refl, some, Bytes, codes, if◌then◌else◌, arith}
use my_llvm_c.Token.{token_identifier}
use my_llvm_c.Token.Index.{same_type}
use my_llvm_c.Lexer.State.{Lexer, new_lexer}
use my_llvm_c.Lexer.Scan.{lex}
use my_llvm_c.Lexer.Stream.{Yields, lex-Yields}
use my_llvm_c.TokenStream.{new_stream, peek_token, consume, match_type}
use my_llvm_c.TokenStream.Sequence.{token_at}
use my_llvm_c.TokenStream.Growth.{IsStream, new_stream-IsStream}
use my_llvm_c.TokenStream.Refines.{
  next_pos, peek_token-token_at, consume-token_at, match_type-token_at,
}

abbrev short_text : Bytes
short_text = codes "a;"

abbrev lexer : Lexer
lexer = new_lexer (codes "a.cm") short_text

lex-Yields_example : Yields lexer (lex (codes "a.cm") short_text).0
lex-Yields_example = lex-Yields (codes "a.cm") short_text

consume-token_at_example :
    ((consume (new_stream lexer)).0 ≡ some (token_at (new_stream lexer).pos lexer))
    × IsStream lexer (consume (new_stream lexer)).1
    × ((consume (new_stream lexer)).1.pos ≡ next_pos lexer (new_stream lexer).pos)
consume-token_at_example = consume-token_at lexer (new_stream lexer) (new_stream-IsStream lexer)

pos-new_stream : (new_stream lexer).pos ≡ 0
unfolding new_stream
pos-new_stream = refl

peek_token-token_at_example :
    ((peek_token 0 (new_stream lexer)).0 ≡ some (token_at ((new_stream lexer).pos + 0) lexer))
    × IsStream lexer (peek_token 0 (new_stream lexer)).1
    × ((peek_token 0 (new_stream lexer)).1.pos ≡ (new_stream lexer).pos)
peek_token-token_at_example =
    peek_token-token_at lexer (new_stream lexer) 0 (new_stream-IsStream lexer)
      (λ i l. absurd (omega (arith, l, pos-new_stream)))

match_type-token_at_example :
    ((match_type token_identifier (new_stream lexer)).0
      ≡ same_type (token_at (new_stream lexer).pos lexer).type token_identifier)
    × IsStream lexer (match_type token_identifier (new_stream lexer)).1
    × ((match_type token_identifier (new_stream lexer)).1.pos ≡ (
        if same_type (token_at (new_stream lexer).pos lexer).type token_identifier
        then next_pos lexer (new_stream lexer).pos
        else (new_stream lexer).pos))
match_type-token_at_example =
    match_type-token_at lexer (new_stream lexer) token_identifier (new_stream-IsStream lexer)
