-- ===== src/Lexer/Stream.antt =====
-- src/frontend/Lexer.cpp: `nextToken`, call by call, against `tokenize`.
use my_llvm_c.Prelude.{
  ℕ, zero, suc, ◌<◌, ◌≡◌, refl, sym, ap, subst, ◌∙◌, inl, inr, true, false, Bytes, List, [], ◌∷◌,
  arith, Bool-cases,
}
use my_llvm_c.Token.{Token, is_unknown, is_eos}
use my_llvm_c.Lexer.State.{Lexer, is_eof, remaining, new_lexer, make_token}
use my_llvm_c.Lexer.Quoted.{Scanned}
use my_llvm_c.Lexer.Scan.{
  scan_token, to_token, tokenize_fuel, tokenize, lex, next_token_fuel, next_token, eos_token,
}
use my_llvm_c.Lexer.Position.{IsPlaced}
use my_llvm_c.Lexer.Tokens.{scanned, remaining-next, new_lexer-IsPlaced}

-- Calls of `nextToken` from `lx` on give these tokens, and then the end token.
abbrev pub Yields : Lexer → List Token → Type 0
Yields lx [] = is_eos (next_token lx).0.type ≡ true
Yields lx (t ∷ ts) = ((next_token lx).0 ≡ t) × Yields (next_token lx).1 ts

eos_token-is_eos : (lx : Lexer) → is_eos (eos_token lx).0.type ≡ true
unfolding eos_token make_token is_eos
eos_token-is_eos lx = refl

-- Fuel above the bytes left does not matter.
next_token_fuel-enough :
    (fuel more : ℕ) (lx : Lexer)
    → IsPlaced lx
    → remaining lx < fuel
    → remaining lx < more
    → next_token_fuel fuel lx ≡ next_token_fuel more lx
unfolding next_token_fuel
next_token_fuel-enough zero more lx h l k = elim l [ ]
next_token_fuel-enough (suc fuel) zero lx h l k = elim k [ ]
next_token_fuel-enough (suc fuel) (suc more) lx h l k = elim (Bool-cases (is_eof lx)) [
  | inl e ↦ rw e refl
  | inr e ↦ elim (Bool-cases (is_eof (to_token lx))) [
    | inl f ↦ rw (e, f) refl
    | inr f ↦ elim (Bool-cases (is_unknown (scan_token (to_token lx)).0.type)) [
      | inl u ↦
          let less = remaining-next lx h f in
          rw (e, f, u)
            (next_token_fuel-enough fuel more (scan_token (to_token lx)).1 (scanned lx h f).placed
              (omega (arith, l, less)) (omega (arith, k, less)))
      | inr u ↦ rw (e, f, u) refl
    ]
  ]
]

-- One round of `nextToken`, by its tests.
next_token-at_end : (lx : Lexer) → is_eof lx ≡ true → next_token lx ≡ eos_token lx
unfolding next_token next_token_fuel
next_token-at_end lx e = rw e refl

module _ (lx : Lexer) (more : is_eof lx ≡ false) where
  next_token-trivia : is_eof (to_token lx) ≡ true → next_token lx ≡ eos_token (to_token lx)
  unfolding next_token next_token_fuel
  next_token-trivia e = rw (more, e) refl

  next_token-skip :
      IsPlaced lx
      → is_eof (to_token lx) ≡ false
      → is_unknown (scan_token (to_token lx)).0.type ≡ true
      → next_token lx ≡ next_token (scan_token (to_token lx)).1
  unfolding next_token next_token_fuel
  next_token-skip h e u =
      let next = (scan_token (to_token lx)).1 in
      rw (more, e, u)
        (next_token_fuel-enough (remaining lx) (suc (remaining next)) next (scanned lx h e).placed
          (remaining-next lx h e) (omega arith))

  next_token-token :
      is_eof (to_token lx) ≡ false
      → is_unknown (scan_token (to_token lx)).0.type ≡ false
      → next_token lx ≡ scan_token (to_token lx)
  unfolding next_token next_token_fuel
  next_token-token e u = rw (more, e, u) refl

Yields-end : (lx end : Lexer) → next_token lx ≡ eos_token end → Yields lx []
Yields-end lx end e = ap (λ r. is_eos r.0.type) e ∙ eos_token-is_eos end

Yields-skip :
    (lx next : Lexer) (ts : List Token)
    → next_token lx ≡ next_token next
    → Yields next ts
    → Yields lx ts
Yields-skip lx next [] e y = ap (λ r. is_eos r.0.type) e ∙ y
Yields-skip lx next (t ∷ ts) e y = (ap (λ r. r.0) e ∙ y.0, subst (λ r. Yields r.1 ts) (sym e) y.1)

Yields-token :
    (lx : Lexer) (r : Scanned) (ts : List Token)
    → next_token lx ≡ r
    → Yields r.1 ts
    → Yields lx (r.0 ∷ ts)
Yields-token lx r ts e y = (ap (λ r. r.0) e, subst (λ r. Yields r.1 ts) (sym e) y)

tokenize_fuel-Yields :
    (fuel : ℕ) (lx : Lexer)
    → IsPlaced lx
    → remaining lx < fuel
    → Yields lx (tokenize_fuel fuel lx).0
unfolding tokenize_fuel
tokenize_fuel-Yields zero lx h l = elim l [ ]
tokenize_fuel-Yields (suc fuel) lx h l = elim (Bool-cases (is_eof lx)) [
  | inl e ↦ rw e (Yields-end lx lx (next_token-at_end lx e))
  | inr e ↦ elim (Bool-cases (is_eof (to_token lx))) [
    | inl f ↦ rw (e, f) (Yields-end lx (to_token lx) (next_token-trivia lx e f))
    | inr f ↦
        let next = (scan_token (to_token lx)).1 in
        let later =
          tokenize_fuel-Yields fuel next (scanned lx h f).placed
            (omega (arith, l, remaining-next lx h f)) in
        elim (Bool-cases (is_unknown (scan_token (to_token lx)).0.type)) [
          | inl u ↦
              rw (e, f, u)
                (Yields-skip lx next (tokenize_fuel fuel next).0 (next_token-skip lx e h f u) later)
          | inr u ↦
              rw (e, f, u)
                (Yields-token lx (scan_token (to_token lx)) (tokenize_fuel fuel next).0
                  (next_token-token lx e f u) later)
        ]
  ]
]

-- The two ways to read a text agree: calls of `nextToken` on a new lexer give the tokens of
-- `tokenize`, one by one and in order, and after them the end token.
pub lex-Yields :
    (filename source : Bytes) → Yields (new_lexer filename source) (lex filename source).0
unfolding lex tokenize
lex-Yields filename source =
    tokenize_fuel-Yields (suc (remaining (new_lexer filename source))) (new_lexer filename source)
      (new_lexer-IsPlaced filename source) (omega arith)
