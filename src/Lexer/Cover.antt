-- ===== src/Lexer/Cover.antt =====
-- src/frontend/Lexer.cpp: the tokens of a text, against the text: the piece that each holds, their
-- order, and the position that each names.
use my_llvm_c.Prelude.{
  ℕ, suc, ◌+◌, ◌-◌, ◌≤◌, ◌<◌, ◌≡◌, refl, ◌∙◌, sym, ap, subst, true, false, Bytes, List, [], ◌∷◌,
  if◌then◌else◌, length, slice, arith,
}
use my_llvm_c.Token.{Token, is_punctuator, is_unknown}
use native.Mathlib.Numerals.{add-one}
use my_llvm_c.Lexer.State.{Lexer, is_eof, advance, lexeme, mark_start, mark_token}
use my_llvm_c.Lexer.Quoted.{Scanned}
use my_llvm_c.Lexer.Scan.{scan_token, to_token}
use my_llvm_c.Lexer.Moves.{Moves, stay, step, Moves-trans, skip_trivia-Moves}
use my_llvm_c.Lexer.Whole.{IsWhole}
use my_llvm_c.Lexer.ScanShape.{IsShort, IsScan, whole, short, dropped, scan_token-IsScan}
use my_llvm_c.Lexer.Position.{
  newlines, IsColumn, IsPlaced, Moves-IsPlaced, Moves-Keeps, current_pos-advance,
}

-- `t` is a token of the text `s` from position `p` up to position `q`.
pub record IsToken (s : Bytes) (p q : ℕ) (t : Token) : Type 0 where
  pub begins : p < length s
  pub moves_on : p < q
  pub text : t.lexeme ≡ slice s p (if is_punctuator t.type then q - 1 - p else q - p)
  pub line : t.line ≡ suc (newlines p s)
  pub column : (c : ℕ) × (t.column ≡ suc c) × IsColumn s p c

-- The tokens lie in the text one behind another, from position `from` on.
abbrev pub Covers : Bytes → ℕ → List Token → Type 0
Covers s from [] = Unit
Covers s from (t ∷ ts) = (p : ℕ) × (q : ℕ) × (from ≤ p) × IsToken s p q t × Covers s q ts

-- A lexer that stands where a token begins, as `scanToken` finds it.
pub record IsAtToken (lx : Lexer) : Type 0 where
  pub start : lx.start_pos ≡ lx.current_pos
  pub placed : IsPlaced lx
  pub inside : lx.current_pos < length lx.source

-- What one call of `scanToken` gives.
pub record IsScanned (lx : Lexer) (r : Scanned) : Type 0 where
  pub source : r.1.source ≡ lx.source
  pub placed : IsPlaced r.1
  pub moves_on : lx.current_pos < r.1.current_pos
  pub token : is_unknown r.0.type ≡ false → IsToken lx.source lx.current_pos r.1.current_pos r.0

slice_cong : (s t : Bytes) (i j n k : ℕ) → s ≡ t → i ≡ j → n ≡ k → slice s i n ≡ slice t j k
slice_cong s t i j n k p q r = cc

is_eof-inside : (lx : Lexer) → lx.current_pos < length lx.source → is_eof lx ≡ false
unfolding is_eof
is_eof-inside lx h = ground arith

module _ (lx : Lexer) (h : IsAtToken lx) where
  -- The same for the lexer with the token's start marked.
  marked-IsPlaced : IsPlaced (mark_token lx)
  unfolding mark_token
  marked-IsPlaced = record { line = h.placed.line; column = h.placed.column }

  -- The parts that do not depend on the token's shape: `last` is where the token was made.
  make-IsToken :
      (r : Scanned) (last : Lexer)
      → Moves (mark_token lx) last
      → lx.current_pos < r.1.current_pos
      → r.0.lexeme
        ≡ slice lx.source lx.current_pos (
            if is_punctuator r.0.type
            then r.1.current_pos - 1 - lx.current_pos
            else r.1.current_pos - lx.current_pos)
      → r.0.line ≡ last.token_start_line
      → r.0.column ≡ last.token_start_col
      → IsToken lx.source lx.current_pos r.1.current_pos r.0
  unfolding mark_token
  make-IsToken r last m on text line column =
      let k = Moves-Keeps m in
      record {
        begins = h.inside;
        moves_on = on;
        text = text;
        line = line ∙ k.token_start_line ∙ h.placed.line;
        column = (lx.col_num, column ∙ k.token_start_col ∙ add-one lx.col_num, h.placed.column);
      }

  whole-IsScanned : (r : Scanned) → IsWhole (advance (mark_token lx)) r → IsScanned lx r
  unfolding mark_token lexeme
  whole-IsScanned r w =
      let m = Moves-trans (step stay) w.moves in
      let k = Moves-Keeps m in
      let j = Moves-Keeps w.moves in
      let on : lx.current_pos < r.1.current_pos =
        omega (arith, current_pos-advance (mark_token lx)) in
      record {
        source = k.source;
        placed = Moves-IsPlaced m marked-IsPlaced;
        moves_on = on;
        token = λ _.
            make-IsToken r r.1 m on
              (rw w.kind (
                w.text
                ∙ slice_cong _ _ _ _ _ _ k.source (k.start_pos ∙ h.start)
                    (ap (λ i. r.1.current_pos - i) (k.start_pos ∙ h.start))))
              w.line w.column;
      }

  short-IsScanned : (r : Scanned) → IsShort (mark_token lx) r → IsScanned lx r
  unfolding mark_token lexeme
  short-IsScanned r w =
      let k = Moves-Keeps w.moves in
      let last = w.last in
      let at : r.1.current_pos ≡ last.current_pos + 1 =
        ap (λ (l : Lexer). l.current_pos) w.end ∙ current_pos-advance last in
      let on : lx.current_pos < r.1.current_pos = omega arith in
      let size : last.current_pos - last.start_pos ≡ r.1.current_pos - 1 - lx.current_pos =
        omega (arith, h.start) in
      record {
        source = ap (λ (l : Lexer). l.source) w.end ∙ (Moves-Keeps (step w.moves)).source;
        placed = subst IsPlaced (sym w.end) (Moves-IsPlaced (step w.moves) marked-IsPlaced);
        moves_on = on;
        token = λ _.
            make-IsToken r last w.moves on
              (rw w.kind (w.text ∙ slice_cong _ _ _ _ _ _ k.source (k.start_pos ∙ h.start) size))
              w.line w.column;
      }

  dropped-IsScanned :
      (r : Scanned)
      → is_unknown r.0.type ≡ true
      → Moves (advance (mark_token lx)) r.1
      → IsScanned lx r
  unfolding mark_token
  dropped-IsScanned r u w =
      let m = Moves-trans (step stay) w in
      let k = Moves-Keeps m in
      let j = Moves-Keeps w in
      record {
        source = k.source;
        placed = Moves-IsPlaced m marked-IsPlaced;
        moves_on = omega (arith, current_pos-advance (mark_token lx));
        token = λ e. cc;
      }

  IsScan-IsScanned : (r : Scanned) → IsScan (mark_token lx) r → IsScanned lx r
  IsScan-IsScanned r (whole w) = whole-IsScanned r w
  IsScan-IsScanned r (short w) = short-IsScanned r w
  IsScan-IsScanned r (dropped u m) = dropped-IsScanned r u m

  pub scan_token-IsScanned : IsScanned lx (scan_token lx)
  scan_token-IsScanned = IsScan-IsScanned (scan_token lx) (scan_token-IsScan lx not_at_end)
    where
      not_at_end : is_eof lx ≡ false
      not_at_end = is_eof-inside lx h.inside

-- What `skipTrivia` and the marked start make of a placed lexer.
pub record IsStart (lx a : Lexer) : Type 0 where
  pub source : a.source ≡ lx.source
  pub start : a.start_pos ≡ a.current_pos
  pub placed : IsPlaced a
  pub forward : lx.current_pos ≤ a.current_pos

pub to_token-IsStart : (lx : Lexer) → IsPlaced lx → IsStart lx (to_token lx)
unfolding to_token mark_start
to_token-IsStart lx h =
    let m = skip_trivia-Moves stay in
    let k = Moves-Keeps m in
    let p = Moves-IsPlaced m h in
    record {
      source = k.source;
      start = refl;
      placed = record { line = p.line; column = p.column };
      forward = k.forward;
    }

pub is_eof→past : (lx : Lexer) → is_eof lx ≡ true → length lx.source ≤ lx.current_pos
unfolding is_eof
is_eof→past lx h = ground arith

pub is_eof→inside : (lx : Lexer) → is_eof lx ≡ false → lx.current_pos < length lx.source
unfolding is_eof
is_eof→inside lx h = ground arith
