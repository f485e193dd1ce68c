-- ===== src/Utf8/Sound.antt =====
-- src/support/Utf8.cpp: the validator against the encoding of lists of scalar values.
use my_llvm_c.Prelude.{
  ℕ, zero, suc, ◌+◌, ◌-◌, ◌*◌, ◌<◌, ◌≤◌, ◌≡◌, refl, ap, ◌∙◌, ◌↔◌, true, some, List, [], ◌∷◌, ◌++◌,
  arith, length, All, Bytes, Option-cases, Bool-cases, ltb, inl, inr, ◌≢◌, length-drop,
}
use my_llvm_c.Utf8.{
  check_seq, valid_from, valid, seq_len, second_ok, all_continuation, is_continuation,
}
use my_llvm_c.Utf8.Scalars.{IsScalar, encode, encode_all}

-- The accepted sequences, by their width.
module _ (r : Bytes) where
  check_seq_one : (a : ℕ) → a < 0x80 → check_seq a r ≡ some r
  unfolding check_seq
  check_seq_one a h = ground arith

  check_seq_two :
      (a b : ℕ) → 0xC2 ≤ a → a ≤ 0xDF → 0x80 ≤ b → b ≤ 0xBF → check_seq a (b ∷ r) ≡ some r
  unfolding check_seq seq_len second_ok all_continuation is_continuation
  check_seq_two a b h1 h2 h3 h4 = ground arith

  check_seq_three :
      (a b c : ℕ)
      → 0xE0 ≤ a
      → a ≤ 0xEF
      → 0x80 ≤ b
      → b ≤ 0xBF
      → (a ≡ 0xE0 → 0xA0 ≤ b)
      → (a ≡ 0xED → b < 0xA0)
      → 0x80 ≤ c
      → c ≤ 0xBF
      → check_seq a (b ∷ c ∷ r) ≡ some r
  unfolding check_seq seq_len second_ok all_continuation is_continuation
  check_seq_three a b c h1 h2 h3 h4 h5 h6 h7 h8 = ground arith

  check_seq_four :
      (a b c d : ℕ)
      → 0xF0 ≤ a
      → a ≤ 0xF4
      → 0x80 ≤ b
      → b ≤ 0xBF
      → (a ≡ 0xF0 → 0x90 ≤ b)
      → (a ≡ 0xF4 → b ≤ 0x8F)
      → 0x80 ≤ c
      → c ≤ 0xBF
      → 0x80 ≤ d
      → d ≤ 0xBF
      → check_seq a (b ∷ c ∷ d ∷ r) ≡ some r
  unfolding check_seq seq_len second_ok all_continuation is_continuation
  check_seq_four a b c d h1 h2 h3 h4 h5 h6 h7 h8 h9 h10 = ground arith

-- The sequence of a scalar value passes, and the check goes on behind it.
abbrev Passes : Bytes → Bytes → Type 0
Passes bytes r =
    (lead : ℕ) × (rest : Bytes) × (bytes ≡ lead ∷ rest) × (check_seq lead rest ≡ some r)

check_seq-encode : (c : ℕ) (r : Bytes) → IsScalar c → Passes (encode c ++ r) r
check_seq-encode c r h = elim (Bool-cases (ltb c 0x80)) [
  | inl e ↦ rw e (c, r, refl, check_seq_one r c (ground arith))
  | inr e ↦ rw e (elim (Bool-cases (ltb c 0x800)) [
    | inl f ↦
        rw f (
          _,
          _,
          refl,
          check_seq_two r _ _ (ground arith) (ground arith) (omega arith) (omega arith),
        )
    | inr f ↦ rw f (elim (Bool-cases (ltb c 0x10000)) [
      | inl g ↦ rw g (
        _,
        _,
        refl,
        check_seq_three r _ _ _ (ground arith) (ground arith) (omega arith) (omega arith)
            (ground arith) (ground arith) (omega arith) (omega arith),
      )
      | inr g ↦ rw g (
        _,
        _,
        refl,
        check_seq_four r _ _ _ _ (ground arith) (ground arith) (omega arith) (omega arith)
            (ground arith) (ground arith) (omega arith) (omega arith) (omega arith) (omega arith),
      )
    ])
  ])
]

-- The scalar value that a lead byte and its continuation bytes stand for.
decode : ℕ → Bytes → ℕ
decode a [] = a
decode a (b ∷ []) = (a - 0xC0) * 64 + (b - 0x80)
decode a (b ∷ c ∷ []) = (a - 0xE0) * 4096 + (b - 0x80) * 64 + (c - 0x80)
decode a (b ∷ c ∷ d ∷ _) = (a - 0xF0) * 262144 + (b - 0x80) * 4096 + (c - 0x80) * 64 + (d - 0x80)

abbrev Decodes : Bytes → Bytes → Type 0
Decodes bytes r = (c : ℕ) × IsScalar c × (bytes ≡ encode c ++ r)

Decodes-one : (a : ℕ) (rest r : Bytes) → a < 0x80 → check_seq a rest ≡ some r → Decodes (a ∷ rest) r
unfolding check_seq
Decodes-one a rest r h e = (a, ground arith, ground arith)

Decodes-two :
    (a b : ℕ) (rest r : Bytes)
    → 0x80 ≤ a
    → a < 0xE0
    → check_seq a (b ∷ rest) ≡ some r
    → Decodes (a ∷ b ∷ rest) r
unfolding check_seq seq_len second_ok all_continuation is_continuation decode
Decodes-two a b rest r h k e = (decode a (b ∷ []), ground arith, ground arith)

Decodes-three :
    (a b c : ℕ) (rest r : Bytes)
    → 0xE0 ≤ a
    → a < 0xF0
    → check_seq a (b ∷ c ∷ rest) ≡ some r
    → Decodes (a ∷ b ∷ c ∷ rest) r
unfolding check_seq seq_len second_ok all_continuation is_continuation decode
Decodes-three a b c rest r h k e = (decode a (b ∷ c ∷ []), ground arith, ground arith)

Decodes-four :
    (a b c d : ℕ) (rest r : Bytes)
    → 0xF0 ≤ a
    → check_seq a (b ∷ c ∷ d ∷ rest) ≡ some r
    → Decodes (a ∷ b ∷ c ∷ d ∷ rest) r
unfolding check_seq seq_len second_ok all_continuation is_continuation decode
Decodes-four a b c d rest r h e = (decode a (b ∷ c ∷ d ∷ []), ground arith, ground arith)

-- A sequence that the text cuts off is refused.
short_one : (a : ℕ) (r : Bytes) → 0x80 ≤ a → check_seq a [] ≢ some r
unfolding check_seq seq_len
short_one a r h = ground arith

short_two : (a b : ℕ) (r : Bytes) → 0xE0 ≤ a → check_seq a (b ∷ []) ≢ some r
unfolding check_seq seq_len
short_two a b r h = ground arith

short_three : (a b c : ℕ) (r : Bytes) → 0xF0 ≤ a → check_seq a (b ∷ c ∷ []) ≢ some r
unfolding check_seq seq_len
short_three a b c r h = ground arith

module _ (r : Bytes) where
  decode_from_three :
      (a b c : ℕ) (rest : Bytes)
      → check_seq a (b ∷ c ∷ rest) ≡ some r
      → 0xE0 ≤ a
      → Decodes (a ∷ b ∷ c ∷ rest) r
  decode_from_three a b c [] e k = elim (Bool-cases (ltb a 0xF0)) [
    | inl three ↦ Decodes-three a b c [] r k (ground arith) e
    | inr wide ↦ absurd (short_three a b c r (ground arith) e)
  ]
  decode_from_three a b c (d ∷ rest) e k = elim (Bool-cases (ltb a 0xF0)) [
    | inl three ↦ Decodes-three a b c (d ∷ rest) r k (ground arith) e
    | inr wide ↦ Decodes-four a b c d rest r (ground arith) e
  ]

  decode_from_two :
      (a b : ℕ) (rest : Bytes)
      → check_seq a (b ∷ rest) ≡ some r
      → 0x80 ≤ a
      → Decodes (a ∷ b ∷ rest) r
  decode_from_two a b [] e k = elim (Bool-cases (ltb a 0xE0)) [
    | inl two ↦ Decodes-two a b [] r k (ground arith) e
    | inr wide ↦ absurd (short_two a b r (ground arith) e)
  ]
  decode_from_two a b (c ∷ rest) e k = elim (Bool-cases (ltb a 0xE0)) [
    | inl two ↦ Decodes-two a b (c ∷ rest) r k (ground arith) e
    | inr wide ↦ decode_from_three a b c rest e (ground arith)
  ]

  -- By the number of bytes behind the lead byte; the widths that do not fit are refused.
  check_seq-decode :
      (lead : ℕ) (rest : Bytes) → check_seq lead rest ≡ some r → Decodes (lead ∷ rest) r
  check_seq-decode a rest e = elim (Bool-cases (ltb a 0x80)) [
    | inl one ↦ Decodes-one a rest r (ground arith) e
    | inr wide ↦ decode_longer a rest e (ground arith)
  ]
    where
      decode_longer :
          (a : ℕ) (rest : Bytes) → check_seq a rest ≡ some r → 0x80 ≤ a → Decodes (a ∷ rest) r
      decode_longer a [] e k = absurd (short_one a r k e)
      decode_longer a (b ∷ rest) e k = decode_from_two a b rest e k

-- Each round leaves fewer bytes.
check_seq-shrinks :
    (lead : ℕ) (rest r : Bytes) → check_seq lead rest ≡ some r → length r ≤ length rest
unfolding check_seq
check_seq-shrinks a rest r h = ground (arith, length-drop (seq_len a - 1) rest)

valid_from-decode :
    (fuel : ℕ) (s : Bytes)
    → valid_from fuel s ≡ true
    → (cs : List ℕ) × All IsScalar cs × (s ≡ encode_all cs)
unfolding valid_from
valid_from-decode fuel [] h = ([], tt, refl)
valid_from-decode zero (a ∷ rest) h = cc
valid_from-decode (suc fuel) (a ∷ rest) h = elim (Option-cases (check_seq a rest)) [
  | inl e ↦ cc (rw (e, valid_from) at h)
  | inr (r, e) ↦
      let (c, ok, p) = check_seq-decode r a rest e in
      let (cs, oks, q) = valid_from-decode fuel r (rw (e, valid_from) at h) in
      (c ∷ cs, (ok, oks), p ∙ ap (λ t. encode c ++ t) q)
]

valid_from_step :
    (fuel lead : ℕ) (rest r : Bytes)
    → check_seq lead rest ≡ some r
    → valid_from (suc fuel) (lead ∷ rest) ≡ valid_from fuel r
unfolding valid_from
valid_from_step fuel lead rest r e = rw (e, valid_from)

valid_from-encode :
    (fuel : ℕ) (cs : List ℕ)
    → All IsScalar cs
    → length (encode_all cs) ≤ fuel
    → valid_from fuel (encode_all cs) ≡ true
unfolding valid_from
valid_from-encode zero [] ok n = refl
valid_from-encode (suc fuel) [] ok n = refl
valid_from-encode zero (c ∷ cs) ok n =
    let (lead, rest, p, q) = check_seq-encode c (encode_all cs) ok.0 in
    absurd (omega (arith, ap length p))
valid_from-encode (suc fuel) (c ∷ cs) ok n =
    let (lead, rest, p, q) = check_seq-encode c (encode_all cs) ok.0 in
    let m = check_seq-shrinks lead rest (encode_all cs) q in
    rw p (
      valid_from_step fuel lead rest (encode_all cs) q
      ∙ valid_from-encode fuel cs ok.1 (omega (arith, ap length p)))

-- `valid` accepts a text exactly if it is the UTF-8 encoding of some list of scalar values: no
-- overlong form, no surrogate, nothing above U+10FFFF, no sequence cut off.
pub valid_iff :
    (s : Bytes) → (valid s ≡ true) ↔ ((cs : List ℕ) × All IsScalar cs × (s ≡ encode_all cs))
unfolding valid
valid_iff s =
    (valid_from-decode (length s) s, λ (cs, ok, e). rw e (valid_from-encode _ cs ok (omega arith)))
