-- ===== src/Lexer/Position.antt =====
-- src/frontend/Lexer.cpp: line and column, described by the text alone. The line is one more than
-- the line feeds before a position; the column counts back to the last of them, or to the start.
use my_llvm_c.Prelude.{
  ℕ, zero, suc, ◌+◌, ◌-◌, ◌≤◌, ◌<◌, ◌≡◌, ◌≢◌, refl, ◌∙◌, sym, ◌⊎◌, inl, inr, true, false, Bytes, [],
  ◌∷◌, ◌==◌, if◌then◌else◌, length, get_or, arith, Bool-cases, subst, ==_iff,
}
use native.Mathlib.Decide.{dec_lt}
use native.Mathlib.Numerals.{add-one}
use my_llvm_c.Lexer.State.{Lexer, peek, advance, report}
use my_llvm_c.Lexer.Moves.{Moves, stay, step, tell}

-- The line feeds among the first `n` bytes.
unfoldable pub newlines : ℕ → Bytes → ℕ
newlines zero s = 0
newlines (suc n) [] = 0
newlines (suc n) (c ∷ s) = (if c == b'\n' then 1 else 0) + newlines n s

newlines-suc :
    (n : ℕ) (s : Bytes)
    → newlines (suc n) s ≡ newlines n s + (if get_or s n 0 == b'\n' then 1 else 0)
unfolding newlines
newlines-suc zero [] = refl
newlines-suc (suc n) [] = refl
newlines-suc zero (c ∷ s) = ground arith
newlines-suc (suc n) (c ∷ s) = omega (arith, newlines-suc n s)

-- The byte at `i` is no line feed.
abbrev pub IsInLine : Bytes → ℕ → Type 0
IsInLine s i = get_or s i 0 ≢ b'\n'

pub record IsColumn (s : Bytes) (n c : ℕ) : Type 0 where
  pub within : c ≤ n
  pub clear : (i : ℕ) → n - c ≤ i → i < n → IsInLine s i
  pub bound : (c ≡ n) ⊎ (get_or s (n - c - 1) 0 ≡ b'\n')

pub record IsPlaced (lx : Lexer) : Type 0 where
  pub line : lx.line_num ≡ suc (newlines lx.current_pos lx.source)
  pub column : IsColumn lx.source lx.current_pos lx.col_num

get_or_past : (s : Bytes) (i : ℕ) → length s ≤ i → get_or s i 0 ≡ 0
get_or_past [] i h = refl
get_or_past (c ∷ s) zero h = elim h [ ]
get_or_past (c ∷ s) (suc i) h = get_or_past s i (omega arith)

-- Past the end the text reads as 0, so that `peek` is the byte at the position everywhere.
pub peek-get_or : (lx : Lexer) → peek lx ≡ get_or lx.source lx.current_pos 0
unfolding peek
peek-get_or lx = ground (arith, get_or_past lx.source lx.current_pos)

IsColumn-newline : (s : Bytes) (n : ℕ) → get_or s n 0 ≡ b'\n' → IsColumn s (n + 1) 0
IsColumn-newline s n e = record {
  within = omega arith;
  clear = λ i p q. absurd (omega arith);
  bound = inr (subst (λ k. get_or s k 0 ≡ b'\n') (omega arith) e);
}

IsColumn-next : (s : Bytes) (n c : ℕ) → IsColumn s n c → IsInLine s n → IsColumn s (n + 1) (c + 1)
IsColumn-next s n c h e = record {
  within = omega arith;
  clear = λ i p q. elim (dec_lt i n) [
    | yes r ↦ h.clear i (omega arith) r
    | no r ↦ subst (IsInLine s) (omega arith) e
  ];
  bound = elim h.bound [
    | inl f ↦ inl (omega arith)
    | inr f ↦ inr (subst (λ k. get_or s k 0 ≡ b'\n') (omega arith) f)
  ];
}

advance-IsPlaced : (lx : Lexer) → IsPlaced lx → IsPlaced (advance lx)
unfolding advance
advance-IsPlaced lx h = elim (Bool-cases (peek lx == b'\n')) [
  | inl e ↦ rw e (record { line = newline e; column = IsColumn-newline _ _ (here e) })
  | inr e ↦ rw e (record { line = other e; column = IsColumn-next _ _ _ h.column (there e) })
]
  where
    here : (peek lx == b'\n') ≡ true → get_or lx.source lx.current_pos 0 ≡ b'\n'
    here e = sym (peek-get_or lx) ∙ (==_iff _ _).0 e

    there : (peek lx == b'\n') ≡ false → IsInLine lx.source lx.current_pos
    there e f = ground (arith, peek-get_or lx)

    newline :
        (peek lx == b'\n') ≡ true → lx.line_num + 1 ≡ suc (newlines (lx.current_pos + 1) lx.source)
    newline e =
        ground
          (arith, newlines-suc lx.current_pos lx.source, h.line, here e, add-one lx.current_pos)

    other : (peek lx == b'\n') ≡ false → lx.line_num ≡ suc (newlines (lx.current_pos + 1) lx.source)
    other e = ground (
      arith,
      newlines-suc lx.current_pos lx.source,
      h.line,
      peek-get_or lx,
      add-one lx.current_pos,
    )

-- The position that the lexer keeps is the position in the text, whatever it does.
pub Moves-IsPlaced : {a b : Lexer} → Moves a b → IsPlaced a → IsPlaced b
unfolding report
Moves-IsPlaced stay h = h
Moves-IsPlaced (step {b} m) h = advance-IsPlaced b (Moves-IsPlaced m h)
Moves-IsPlaced (tell code msg line col m) h =
    let k = Moves-IsPlaced m h in record { line = k.line; column = k.column }

-- What scanning leaves alone, and the direction in which it goes.
pub record Keeps (a b : Lexer) : Type 0 where
  pub source : b.source ≡ a.source
  pub filename : b.filename ≡ a.filename
  pub start_pos : b.start_pos ≡ a.start_pos
  pub token_start_line : b.token_start_line ≡ a.token_start_line
  pub token_start_col : b.token_start_col ≡ a.token_start_col
  pub forward : a.current_pos ≤ b.current_pos

advance-Keeps : (a : Lexer) → Keeps a (advance a)
unfolding advance
advance-Keeps a = ground arith

pub current_pos-advance : (a : Lexer) → (advance a).current_pos ≡ a.current_pos + 1
unfolding advance
current_pos-advance a = ground arith

Keeps-trans : {a b c : Lexer} → Keeps a b → Keeps b c → Keeps a c
Keeps-trans h k = ground arith

pub Moves-Keeps : {a b : Lexer} → Moves a b → Keeps a b
unfolding report
Moves-Keeps {a} stay = ground arith
Moves-Keeps (step {b} m) = Keeps-trans (Moves-Keeps m) (advance-Keeps b)
Moves-Keeps (tell code msg line col m) =
    let k = Moves-Keeps m in
    record {
      source = k.source;
      filename = k.filename;
      start_pos = k.start_pos;
      token_start_line = k.token_start_line;
      token_start_col = k.token_start_col;
      forward = k.forward;
    }
