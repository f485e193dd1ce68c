-- ===== src/Lexer/Tokens.antt =====
-- src/frontend/Lexer.cpp: the loop of `tokenize`, and its tokens against the text.
use my_llvm_c.Prelude.{
  ℕ, zero, suc, ◌≤◌, ◌<◌, ◌≡◌, refl, subst, ap, inl, inr, ◌∙◌, Bool, true, false, Bytes, List, [],
  ◌∷◌, if◌then◌else◌, length, arith, Bool-cases,
}
use my_llvm_c.Token.{Token, is_unknown}
use my_llvm_c.Lexer.State.{Lexer, is_eof, remaining, new_lexer}
use my_llvm_c.Lexer.Scan.{scan_token, to_token, tokenize_fuel, tokenize, lex}
use my_llvm_c.Lexer.Position.{newlines, IsPlaced}
use my_llvm_c.Lexer.Cover.{
  IsToken, Covers, IsAtToken, IsScanned, scan_token-IsScanned, IsStart, to_token-IsStart,
  is_eof→inside,
}

Covers-from : (s : Bytes) (m n : ℕ) (ts : List Token) → m ≤ n → Covers s n ts → Covers s m ts
Covers-from s m n [] h c = tt
Covers-from s m n (t ∷ ts) h (p, q, le, t_ok, rest) = (p, q, omega arith, t_ok, rest)

-- One round of the loop, once both of its tests on the end have failed.
module _ (lx : Lexer) (h : IsPlaced lx) (more : is_eof (to_token lx) ≡ false) where
  start : IsStart lx (to_token lx)
  start = to_token-IsStart lx h

  at_token : IsAtToken (to_token lx)
  at_token = record { start = start.start; placed = start.placed; inside = is_eof→inside _ more }

  pub scanned : IsScanned (to_token lx) (scan_token (to_token lx))
  scanned = scan_token-IsScanned (to_token lx) at_token

  next_source : (scan_token (to_token lx)).1.source ≡ lx.source
  next_source = scanned.source ∙ start.source

  -- The loop's measure falls.
  pub remaining-next : remaining (scan_token (to_token lx)).1 < remaining lx
  unfolding remaining
  remaining-next =
      rw next_source
        (omega (arith, scanned.moves_on, start.forward, at_token.inside, ap length start.source))

  -- The token of the round in front of the later ones, unless it is dropped.
  Covers-round :
      (ts : List Token)
      → Covers lx.source (scan_token (to_token lx)).1.current_pos ts
      → (unknown : Bool) → is_unknown (scan_token (to_token lx)).0.type ≡ unknown
      → Covers lx.source lx.current_pos (if unknown then ts else (scan_token (to_token lx)).0 ∷ ts)
  Covers-round ts c true e =
      Covers-from lx.source _ _ ts (omega (arith, scanned.moves_on, start.forward)) c
  Covers-round ts c false e = (
    (to_token lx).current_pos,
    (scan_token (to_token lx)).1.current_pos,
    start.forward,
    subst
        (λ s.
          IsToken s (to_token lx).current_pos (scan_token (to_token lx)).1.current_pos
            (scan_token (to_token lx)).0)
        start.source (scanned.token e),
    c,
  )

tokenize_fuel-Covers :
    (fuel : ℕ) (lx : Lexer)
    → IsPlaced lx
    → Covers lx.source lx.current_pos (tokenize_fuel fuel lx).0
unfolding tokenize_fuel
tokenize_fuel-Covers zero lx h = tt
tokenize_fuel-Covers (suc fuel) lx h = elim (Bool-cases (is_eof lx)) [
  | inl e ↦ rw e tt
  | inr e ↦ elim (Bool-cases (is_eof (to_token lx))) [
    | inl f ↦ rw (e, f) tt
    | inr f ↦
        let later =
          tokenize_fuel-Covers fuel (scan_token (to_token lx)).1 (scanned lx h f).placed in
        let there =
          subst
            (λ s.
              Covers s (scan_token (to_token lx)).1.current_pos
                (tokenize_fuel fuel (scan_token (to_token lx)).1).0)
            (next_source lx h f) later in
        elim (Bool-cases (is_unknown (scan_token (to_token lx)).0.type)) [
          | inl u ↦ rw (e, f, u) (Covers-round lx h f _ there true u)
          | inr u ↦ rw (e, f, u) (Covers-round lx h f _ there false u)
        ]
  ]
]

pub new_lexer-IsPlaced : (filename source : Bytes) → IsPlaced (new_lexer filename source)
unfolding new_lexer newlines
new_lexer-IsPlaced filename source = record {
  line = refl;
  column = record { within = omega arith; clear = λ i p q. absurd (omega arith); bound = inl refl };
}

-- The tokens of a text lie in it one behind another. Each holds the piece of the text from where it
-- begins to where the lexer stopped, but an operator's token lacks the last character of its piece;
-- its line is one more than the line feeds before it, and its column is the distance from the last
-- of them, or from the start of the text, counted from 1.
pub lex-Covers : (filename source : Bytes) → Covers source 0 (lex filename source).0
unfolding lex tokenize new_lexer
lex-Covers filename source =
    tokenize_fuel-Covers (suc (remaining (new_lexer filename source))) (new_lexer filename source)
      (new_lexer-IsPlaced filename source)
