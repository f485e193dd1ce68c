-- ===== src/TokenStream/Sequence.antt =====
-- src/frontend/TokenStream.cpp: the tokens that a lexer gives, call by call of `nextToken`, as one sequence.
use my_llvm_c.Prelude.{
  ℕ, zero, suc, ◌<◌, ◌≡◌, refl, ap, List, [], ◌∷◌, ◌++◌, some, get_elem?, arith,
}
use my_llvm_c.Token.{Token}
use my_llvm_c.Lexer.State.{Lexer}
use my_llvm_c.Lexer.Scan.{next_token}

-- The lexer after `n` calls, and what the next call gives.
abbrev pub after : ℕ → Lexer → Lexer
after zero lx = lx
after (suc n) lx = after n (next_token lx).1

abbrev pub token_at : ℕ → Lexer → Token
token_at zero lx = (next_token lx).0
token_at (suc n) lx = token_at n (next_token lx).1

abbrev pub first_tokens : ℕ → Lexer → List Token
first_tokens zero lx = []
first_tokens (suc n) lx = (next_token lx).0 ∷ first_tokens n (next_token lx).1

pub token_at-after : (n : ℕ) (lx : Lexer) → (next_token (after n lx)).0 ≡ token_at n lx
token_at-after zero lx = refl
token_at-after (suc n) lx = token_at-after n (next_token lx).1

pub after-suc : (n : ℕ) (lx : Lexer) → (next_token (after n lx)).1 ≡ after (suc n) lx
after-suc zero lx = refl
after-suc (suc n) lx = after-suc n (next_token lx).1

pub first_tokens-snoc :
    (n : ℕ) (lx : Lexer) → first_tokens n lx ++ token_at n lx ∷ [] ≡ first_tokens (suc n) lx
first_tokens-snoc zero lx = refl
first_tokens-snoc (suc n) lx =
    ap (λ ts. (next_token lx).0 ∷ ts) (first_tokens-snoc n (next_token lx).1)

pub get_elem?-first_tokens :
    (n i : ℕ) (lx : Lexer) → i < n → get_elem? (first_tokens n lx) i ≡ some (token_at i lx)
get_elem?-first_tokens zero i lx h = elim h [ ]
get_elem?-first_tokens (suc n) zero lx h = refl
get_elem?-first_tokens (suc n) (suc i) lx h =
    get_elem?-first_tokens n i (next_token lx).1 (omega arith)
