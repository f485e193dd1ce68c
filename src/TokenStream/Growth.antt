-- ===== src/TokenStream/Growth.antt =====
-- src/frontend/TokenStream.cpp: `ensureBuffered`, and the buffer against the sequence of tokens.
use my_llvm_c.Prelude.{
  ℕ, zero, suc, ◌+◌, ◌-◌, ◌≤◌, ◌<◌, ◌≡◌, refl, sym, ap, ◌∙◌, Bool, true, false, [], ◌∷◌, ◌++◌,
  if◌then◌else◌, length, length-append, arith, inl, inr, ◌⊎◌, Bool-cases,
}
use my_llvm_c.Token.{is_eos}
use my_llvm_c.Lexer.State.{Lexer}
use my_llvm_c.Lexer.Scan.{next_token}
use my_llvm_c.TokenStream.{
  TokenStream, new_stream, push_next, is_short, ensure_fuel, ensure_buffered,
}
use my_llvm_c.TokenStream.Sequence.{
  after, token_at, first_tokens, token_at-after, after-suc, first_tokens-snoc,
}

-- The end token is at `i`.
abbrev pub is_end : Lexer → ℕ → Bool
is_end lx i = is_eos (token_at i lx).type

pub clash : (x : Bool) → x ≡ true → x ≡ false → 1 ≤ 0
clash x t f = cc

-- The buffer holds the first tokens of the sequence, and the lexer stands behind them. Only the last one can be
-- the end token, which `ended` says; the position never passes it.
pub record IsStream (lx : Lexer) (ts : TokenStream) : Type 0 where
  pub count : ℕ
  pub length_buffer : length ts.buffer ≡ count
  pub buffer : ts.buffer ≡ first_tokens count lx
  pub lexer : ts.lexer ≡ after count lx
  pub inner : (i : ℕ) → suc i < count → is_end lx i ≡ false
  pub last : ts.ended ≡ true → (k : ℕ) × (count ≡ suc k) × (is_end lx k ≡ true)
  pub more : ts.ended ≡ false → (i : ℕ) → i < count → is_end lx i ≡ false
  pub pos : ts.pos ≤ count
  pub pos_end : ts.ended ≡ true → ts.pos < count

pub new_stream-IsStream : (lx : Lexer) → IsStream lx (new_stream lx)
unfolding new_stream
new_stream-IsStream lx = record {
  count = 0;
  length_buffer = refl;
  buffer = refl;
  lexer = refl;
  inner = λ i h. absurd (omega (arith, h));
  last = λ e. absurd (cc);
  more = λ e i h. absurd (omega (arith, h));
  pos = omega arith;
  pos_end = λ e. absurd (cc);
}

module _ (lx : Lexer) (ts : TokenStream) (h : IsStream lx ts) where
  next-token_at : (next_token ts.lexer).0 ≡ token_at h.count lx
  next-token_at = ap (λ l. (next_token l).0) h.lexer ∙ token_at-after h.count lx

  ended-push_next : ts.ended ≡ false → (push_next ts).ended ≡ is_end lx h.count
  unfolding push_next
  ended-push_next e = rw (next-token_at, e) (if_same (is_end lx h.count))
    where
      if_same : (b : Bool) → (if b then true else false) ≡ b
      if_same true = refl
      if_same false = refl

  -- An index below the new count is the new last one, or an old one.
  push-last : (i : ℕ) → i < suc h.count → (i < h.count) ⊎ (i ≡ h.count)
  push-last i l = ground arith

  push_next-more :
      ts.ended ≡ false
      → (push_next ts).ended ≡ false
      → (i : ℕ) → i < suc h.count
      → is_end lx i ≡ false
  push_next-more e f i l = elim (push-last i l) [
    | inl below ↦ h.more e i below
    | inr new ↦ ap (is_end lx) new ∙ sym (ended-push_next e) ∙ f
  ]

  push_next-IsStream : ts.ended ≡ false → IsStream lx (push_next ts)
  unfolding push_next
  push_next-IsStream e = record {
    count = suc h.count;
    length_buffer =
        omega (arith, length-append ts.buffer ((next_token ts.lexer).0 ∷ []), h.length_buffer);
    buffer =
        ap (λ t. ts.buffer ++ t ∷ []) next-token_at
        ∙ ap (λ b. b ++ token_at h.count lx ∷ []) h.buffer
        ∙ first_tokens-snoc h.count lx;
    lexer = ap (λ l. (next_token l).1) h.lexer ∙ after-suc h.count lx;
    inner = λ i l. h.more e i (omega (arith, l));
    last = λ f. (h.count, refl, sym (ended-push_next e) ∙ f);
    more = λ f i l. push_next-more e f i l;
    pos = omega (arith, h.pos);
    pos_end = λ f. omega (arith, h.pos);
  }

-- What `ensureBuffered` gives: the tokens asked for, or the end.
pub record IsBuffered (lx : Lexer) (offset : ℕ) (ts b : TokenStream) : Type 0 where
  pub stream : IsStream lx b
  pub pos : b.pos ≡ ts.pos
  pub enough : (b.ended ≡ true) ⊎ (b.pos + offset < stream.count)

short-ended : (offset : ℕ) (ts : TokenStream) → is_short offset ts ≡ true → ts.ended ≡ false
unfolding is_short
short-ended offset ts e = ground arith

short-enough :
    (offset : ℕ) (ts : TokenStream)
    → is_short offset ts ≡ false
    → (ts.ended ≡ true) ⊎ (ts.pos + offset < length ts.buffer)
unfolding is_short
short-enough offset ts e = ground arith

pos-push_next : (ts : TokenStream) → (push_next ts).pos ≡ ts.pos
unfolding push_next
pos-push_next ts = refl

length-push_next : (ts : TokenStream) → length (push_next ts).buffer ≡ suc (length ts.buffer)
unfolding push_next
length-push_next ts = omega (arith, length-append ts.buffer ((next_token ts.lexer).0 ∷ []))

module _ (lx : Lexer) (offset : ℕ) where
  IsBuffered-here :
      (ts : TokenStream)
      → IsStream lx ts
      → (ts.ended ≡ true) ⊎ (ts.pos + offset < length ts.buffer)
      → IsBuffered lx offset ts ts
  IsBuffered-here ts h e = record {
    stream = h;
    pos = refl;
    enough = elim e [ inl f ↦ inl f | inr l ↦ inr (omega (arith, l, h.length_buffer)) ];
  }

  ensure_fuel-IsBuffered :
      (fuel : ℕ) (ts : TokenStream)
      → IsStream lx ts
      → suc (ts.pos + offset) - length ts.buffer ≤ fuel
      → IsBuffered lx offset ts (ensure_fuel fuel offset ts)
  unfolding ensure_fuel
  ensure_fuel-IsBuffered zero ts h l = IsBuffered-here ts h (inr (omega (arith, l)))
  ensure_fuel-IsBuffered (suc fuel) ts h l = elim (Bool-cases (is_short offset ts)) [
    | inl e ↦
        let next = push_next-IsStream lx ts h (short-ended offset ts e) in
        let rest =
          ensure_fuel-IsBuffered fuel (push_next ts) next
            (omega (arith, l, pos-push_next ts, length-push_next ts)) in
        rw e
          (record { stream = rest.stream; pos = rest.pos ∙ pos-push_next ts; enough = rest.enough })
    | inr e ↦ rw e (IsBuffered-here ts h (short-enough offset ts e))
  ]

  pub ensure_buffered-IsBuffered :
      (ts : TokenStream) → IsStream lx ts → IsBuffered lx offset ts (ensure_buffered offset ts)
  unfolding ensure_buffered
  ensure_buffered-IsBuffered ts h = ensure_fuel-IsBuffered _ ts h (omega arith)
