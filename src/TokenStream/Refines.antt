-- ===== src/TokenStream/Refines.antt =====
-- src/frontend/TokenStream.cpp: the buffer against the sequence of the lexer's tokens.
use my_llvm_c.Prelude.{
  ℕ, suc, ◌+◌, ◌-◌, ◌≤◌, ◌<◌, ◌≡◌, refl, sym, ap, ◌∙◌, true, false, ◌&&◌, some, leb, if◌then◌else◌,
  length, get_elem?, arith, inl, inr, ◌⊎◌, Bool-cases,
}
use native.Mathlib.Decide.{dec_lt}
use my_llvm_c.Token.{TokenType}
use my_llvm_c.Lexer.State.{Lexer}
use my_llvm_c.Token.Index.{same_type}
use my_llvm_c.TokenStream.{
  has_type, TokenStream, ensure_buffered, peek_token, at_end, consume, match_type,
}
use my_llvm_c.TokenStream.Sequence.{token_at, get_elem?-first_tokens}
use my_llvm_c.TokenStream.Growth.{is_end, clash, IsStream, ensure_buffered-IsBuffered}

-- The token at an index that is buffered.
buffered-token_at :
    (lx : Lexer) (ts : TokenStream) (h : IsStream lx ts) (i : ℕ)
    → i < h.count
    → get_elem? ts.buffer i ≡ some (token_at i lx)
buffered-token_at lx ts h i l =
    ap (λ b. get_elem? b i) h.buffer ∙ get_elem?-first_tokens h.count i lx l

module _ (lx : Lexer) (b : TokenStream) (h : IsStream lx b) where
  -- The buffer reaches as far as the end token does not stand before.
  within :
      (offset : ℕ)
      → (b.ended ≡ true) ⊎ (b.pos + offset < h.count)
      → ((i : ℕ) → i < b.pos + offset → is_end lx i ≡ false)
      → b.pos + offset < h.count
  within offset (inr l) clear = l
  within offset (inl e) clear =
      let (k, c, t) = h.last e in
      elim (dec_lt k (b.pos + offset)) [
        | yes l ↦ elim (clash (is_end lx k) t (clear k l)) [ ]
        | no n ↦ omega (arith, c, n)
      ]

  pos-is_end :
      (b.ended ≡ true) ⊎ (b.pos + 0 < h.count)
      → (b.ended && leb (length b.buffer - 1) b.pos) ≡ is_end lx b.pos
  pos-is_end e = elim (Bool-cases b.ended) [
    | inl f ↦
        let (k, c, t) = h.last f in
        elim (dec_lt b.pos k) [
          | yes l ↦ rw f (
              flag-false (omega (arith, l, c, h.length_buffer))
              ∙ sym (h.inner b.pos (omega (arith, l, c))))
          | no n ↦
              let here : b.pos ≡ k = omega (arith, n, c, h.pos_end f) in
              rw f
                (flag-true (omega (arith, n, c, h.length_buffer)) ∙ sym (ap (is_end lx) here ∙ t))
        ]
    | inr f ↦ rw f (sym (h.more f b.pos (reached e f)))
  ]
    where
      flag-false : b.pos < length b.buffer - 1 → leb (length b.buffer - 1) b.pos ≡ false
      flag-false l = ground arith

      flag-true : length b.buffer - 1 ≤ b.pos → leb (length b.buffer - 1) b.pos ≡ true
      flag-true l = ground arith

      reached : (b.ended ≡ true) ⊎ (b.pos + 0 < h.count) → b.ended ≡ false → b.pos < h.count
      reached (inl t) f = absurd (cc)
      reached (inr l) f = omega (arith, l)

-- Looking ahead gives the token at that distance if the end token does not stand before it, and moves nothing.
pub peek_token-token_at :
    (lx : Lexer) (ts : TokenStream) (offset : ℕ)
    → IsStream lx ts
    → ((i : ℕ) → i < ts.pos + offset → is_end lx i ≡ false)
    → ((peek_token offset ts).0 ≡ some (token_at (ts.pos + offset) lx))
      × IsStream lx (peek_token offset ts).1
      × ((peek_token offset ts).1.pos ≡ ts.pos)
unfolding peek_token
peek_token-token_at lx ts offset h clear =
    let b = ensure_buffered-IsBuffered lx offset ts h in
    let here = b.pos in
    (
      buffered-token_at lx (ensure_buffered offset ts) b.stream
            ((ensure_buffered offset ts).pos + offset)
            (within lx (ensure_buffered offset ts) b.stream offset b.enough
              (λ i l. clear i (omega (arith, l, here))))
          ∙ ap (λ p. some (token_at (p + offset) lx)) here,
      b.stream,
      here,
    )

-- A buffer that reaches over its position.
record IsReady (lx : Lexer) (ts b : TokenStream) : Type 0 where
  stream : IsStream lx b
  pos : b.pos ≡ ts.pos
  inside : b.pos < stream.count

ready-inside :
    (lx : Lexer) (b : TokenStream) (h : IsStream lx b)
    → (b.ended ≡ true) ⊎ (b.pos + 0 < h.count)
    → b.pos < h.count
ready-inside lx b h (inl e) = h.pos_end e
ready-inside lx b h (inr l) = omega (arith, l)

at_end-IsReady :
    (lx : Lexer) (ts : TokenStream)
    → IsStream lx ts
    → ((at_end ts).0 ≡ is_end lx ts.pos) × IsReady lx ts (at_end ts).1
unfolding at_end
at_end-IsReady lx ts h =
    let b = ensure_buffered-IsBuffered lx 0 ts h in
    (
      pos-is_end lx (ensure_buffered 0 ts) b.stream b.enough ∙ ap (is_end lx) b.pos,
      record {
        stream = b.stream;
        pos = b.pos;
        inside = ready-inside lx (ensure_buffered 0 ts) b.stream b.enough;
      },
    )

-- A flag that is set says that the position is the last of the buffer.
at_end-last :
    (ts : TokenStream) → (at_end ts).0 ≡ true → length (at_end ts).1.buffer - 1 ≤ (at_end ts).1.pos
unfolding at_end
at_end-last ts e = ground arith

-- The position behind the token that was taken.
abbrev pub next_pos : Lexer → ℕ → ℕ
next_pos lx i = if is_end lx i then i else suc i

step-IsStream :
    (lx : Lexer) (b : TokenStream) (h : IsStream lx b)
    → b.pos < h.count
    → is_end lx b.pos ≡ false
    → IsStream lx (record b { pos = b.pos + 1 })
step-IsStream lx b h l e = record {
  count = h.count;
  length_buffer = h.length_buffer;
  buffer = h.buffer;
  lexer = h.lexer;
  inner = h.inner;
  last = h.last;
  more = h.more;
  pos = omega (arith, l);
  pos_end = λ f. let (k, c, t) = h.last f in before_end k c t;
}
  where
    before_end : (k : ℕ) → h.count ≡ suc k → is_end lx k ≡ true → b.pos + 1 < h.count
    before_end k c t = elim (dec_lt b.pos k) [
      | yes less ↦ omega (arith, less, c)
      | no n ↦
          let here : k ≡ b.pos = omega (arith, n, c, l) in
          elim (clash (is_end lx b.pos) (sym (ap (is_end lx) here) ∙ t) e) [ ]
    ]

last-token_at :
    (lx : Lexer) (b : TokenStream) (h : IsStream lx b)
    → b.pos < h.count
    → length b.buffer - 1 ≤ b.pos
    → get_elem? b.buffer (length b.buffer - 1) ≡ some (token_at b.pos lx)
last-token_at lx b h l e =
    ap (get_elem? b.buffer) (omega (arith, l, e, h.length_buffer))
    ∙ buffered-token_at lx b h b.pos l

-- Taking a token gives the one at the position, and moves on unless it is the end token.
pub consume-token_at :
    (lx : Lexer) (ts : TokenStream)
    → IsStream lx ts
    → ((consume ts).0 ≡ some (token_at ts.pos lx))
      × IsStream lx (consume ts).1
      × ((consume ts).1.pos ≡ next_pos lx ts.pos)
unfolding consume
consume-token_at lx ts h =
    let s = ensure_buffered-IsBuffered lx 0 ts h in
    let (flag, r) = at_end-IsReady lx (ensure_buffered 0 ts) s.stream in
    let b = (at_end (ensure_buffered 0 ts)).1 in
    let here : b.pos ≡ ts.pos = r.pos ∙ s.pos in
    elim (Bool-cases (is_end lx ts.pos)) [
      | inl e ↦
          let end = flag ∙ ap (is_end lx) s.pos ∙ e in
          rw (end, e)
            (
              last-token_at lx b r.stream r.inside (at_end-last (ensure_buffered 0 ts) end)
                  ∙ ap (λ p. some (token_at p lx)) here,
              r.stream,
              here,
            )
      | inr e ↦
          let more = flag ∙ ap (is_end lx) s.pos ∙ e in
          rw (more, e)
            (
              buffered-token_at lx b r.stream b.pos r.inside ∙ ap (λ p. some (token_at p lx)) here,
              step-IsStream lx b r.stream r.inside (ap (is_end lx) here ∙ e),
              omega (arith, here),
            )
    ]

-- Before the position no token is the end token.
before-pos :
    (lx : Lexer) (ts : TokenStream) (h : IsStream lx ts) (i : ℕ) → i < ts.pos → is_end lx i ≡ false
before-pos lx ts h i l = elim (Bool-cases ts.ended) [
  | inl e ↦ h.inner i (omega (arith, l, h.pos_end e))
  | inr e ↦ h.more e i (omega (arith, l, h.pos))
]

has_type-token_at :
    (lx : Lexer) (ts : TokenStream) (type : TokenType)
    → IsStream lx ts
    → (has_type type (peek_token 0 ts).0 ≡ same_type (token_at ts.pos lx).type type)
      × IsStream lx (peek_token 0 ts).1
      × ((peek_token 0 ts).1.pos ≡ ts.pos)
unfolding has_type
has_type-token_at lx ts type h =
    let (t, s, p) =
      peek_token-token_at lx ts 0 h (λ i l. before-pos lx ts h i (omega (arith, l))) in
    let here : ts.pos + 0 ≡ ts.pos = omega arith in
    (ap (has_type type) t ∙ ap (λ i. same_type (token_at i lx).type type) here, s, p)

-- Testing the next token for a type takes it exactly if it has that type.
pub match_type-token_at :
    (lx : Lexer) (ts : TokenStream) (type : TokenType)
    → IsStream lx ts
    → ((match_type type ts).0 ≡ same_type (token_at ts.pos lx).type type)
      × IsStream lx (match_type type ts).1
      × ((match_type type ts).1.pos
          ≡ (if same_type (token_at ts.pos lx).type type then next_pos lx ts.pos else ts.pos))
unfolding match_type
match_type-token_at lx ts type h =
    let (t, s, p) = has_type-token_at lx ts type h in
    let b = (peek_token 0 ts).1 in
    elim (Bool-cases (same_type (token_at ts.pos lx).type type)) [
      | inl e ↦
          let (_, taken, next) = consume-token_at lx b s in
          rw (t ∙ e, e) (refl, taken, next ∙ ap (next_pos lx) p)
      | inr e ↦ rw (t ∙ e, e) (refl, s, p)
    ]
