-- ===== src/Format/Spec/Valid.antt =====
-- src/ast/PrintFormat.cpp: what `parsePrintSpec` accepts, and the text of such a spec.
use my_llvm_c.Prelude.{
  ℕ, ◌≤◌, ◌<◌, ◌≡◌, ◌≢◌, refl, ◌⊎◌, inl, inr, Bool, true, false, not, ◌&&◌, Bytes, [], ◌∷◌, Option,
  none, some, ◌==◌, arith, Bool-cases, subst, ◌||◌,
}
use my_llvm_c.Format.Decimal.{is_digit, stoi}
use my_llvm_c.Format.Spec.{
  PrintSpec, ok, is_align, begins_with_fill, parse_align, is_sign, parse_sign, take_digits, is_type,
  precision_large, check_spec, parse_type, parse_tail, parse_after_precision,
  parse_digits_of_precision, parse_precision, parse_after_width, parse_print_spec,
}

abbrev pub AtMost : ℕ → Option ℕ → Type 0
AtMost n none = Unit
AtMost n (some p) = p ≤ n

-- A character that may stand before an alignment as its fill.
unfoldable pub is_fill : ℕ → Bool
unfolding is_align is_digit
is_fill c =
    not (c == b'{') && not (c == b'}') && not (c == b':') && not (is_digit c) && not (is_align c)

-- The parts that are characters.
pub record IsShaped (sp : PrintSpec) : Type 0 where
  pub align :
      (sp.align ≡ 0) × (sp.fill ≡ b' ') ⊎ (is_align sp.align ≡ true) × (is_fill sp.fill ≡ true)
  pub sign : (sp.sign ≡ 0) ⊎ (is_sign sp.sign ≡ true)
  pub type : (sp.type ≡ 0) ⊎ (is_type sp.type ≡ true)

-- The limits of the numbers, and the conflicts that are ruled out.
pub record IsChecked (sp : PrintSpec) : Type 0 where
  pub width : sp.width ≤ 200
  pub precision : AtMost 200 sp.precision
  pub zero_align : sp.zero_fill ≡ true → (sp.align ≢ b'<') × (sp.align ≢ b'^') × (0 < sp.width)
  pub align_width : sp.align ≢ 0 → 0 < sp.width

pub record IsValid (sp : PrintSpec) : Type 0 where
  pub shaped : IsShaped sp
  pub checked : IsChecked sp

AtMost-precision : (p : Option ℕ) → precision_large p ≡ false → AtMost 200 p
unfolding precision_large
AtMost-precision none h = tt
AtMost-precision (some p) h = ground arith

precision-AtMost : (p : Option ℕ) → AtMost 200 p → precision_large p ≡ false
unfolding precision_large
precision-AtMost none h = refl
precision-AtMost (some p) h = ground arith

check_spec-IsChecked : (sp sp' : PrintSpec) → check_spec sp ≡ ok sp' → (sp ≡ sp') × IsChecked sp
unfolding check_spec
check_spec-IsChecked sp sp' h = (
  ground arith,
  record {
    width = ground arith;
    precision = AtMost-precision sp.precision (ground arith);
    zero_align = λ z. (λ a. ground arith, λ a. ground arith, ground arith);
    align_width = λ a. ground arith;
  },
)

pub check_spec-ok : (sp : PrintSpec) → IsChecked sp → check_spec sp ≡ ok sp
unfolding check_spec
check_spec-ok sp h =
    let p = precision-AtMost sp.precision h.precision in ground (arith, h.zero_align, h.align_width)

check_spec-IsValid : (sp sp' : PrintSpec) → IsShaped sp → check_spec sp ≡ ok sp' → IsValid sp'
check_spec-IsValid sp sp' s h =
    let (e, c) = check_spec-IsChecked sp sp' h in
    subst IsValid e (record { shaped = s; checked = c })

-- Each part is read under the same promise: a shaped spec so far, and an accepted rest.
module _ (spec : Bytes) (sp' : PrintSpec) where
  parse_type-IsValid :
      (sp : PrintSpec) (r : Bytes) → IsShaped sp → parse_type spec sp r ≡ ok sp' → IsValid sp'
  unfolding parse_type
  parse_type-IsValid sp [] s h = check_spec-IsValid sp sp' s h
  parse_type-IsValid sp (t ∷ []) s h = elim (Bool-cases (is_type t)) [
    | inl e ↦
        check_spec-IsValid (record sp { type = t }) sp'
          (record { align = s.align; sign = s.sign; type = inr e }) (rw e at h)
    | inr e ↦ cc (rw e at h)
  ]
  parse_type-IsValid sp (t ∷ c ∷ r) s h = cc

  parse_tail-IsValid :
      (sp : PrintSpec) (r : Bytes) → IsShaped sp → parse_tail spec sp r ≡ ok sp' → IsValid sp'
  unfolding parse_tail
  parse_tail-IsValid sp [] s h = parse_type-IsValid sp [] s h
  parse_tail-IsValid sp (c ∷ r) s h = elim (Bool-cases (sp.zero_fill && (c == b'<' || c == b'^'))) [
    | inl e ↦ cc (rw e at h)
    | inr e ↦ parse_type-IsValid sp (c ∷ r) s (rw e at h)
  ]

  after_precision-IsValid :
      (sp : PrintSpec) (v : Option ℕ) (r : Bytes)
      → IsShaped sp
      → parse_after_precision spec sp v r ≡ ok sp'
      → IsValid sp'
  unfolding parse_after_precision
  after_precision-IsValid sp none r s h = cc
  after_precision-IsValid sp (some p) r s h =
      parse_tail-IsValid (record sp { precision = some p }) r
        (record { align = s.align; sign = s.sign; type = s.type }) h

  parse_digits-IsValid :
      (sp : PrintSpec) (r : Bytes × Bytes)
      → IsShaped sp
      → parse_digits_of_precision spec sp r ≡ ok sp'
      → IsValid sp'
  unfolding parse_digits_of_precision
  parse_digits-IsValid sp ([], left) s h = cc
  parse_digits-IsValid sp (c ∷ run, left) s h = after_precision-IsValid sp (stoi (c ∷ run)) left s h

  parse_precision-IsValid :
      (sp : PrintSpec) (r : Bytes) → IsShaped sp → parse_precision spec sp r ≡ ok sp' → IsValid sp'
  unfolding parse_precision
  parse_precision-IsValid sp [] s h = parse_tail-IsValid sp [] s h
  parse_precision-IsValid sp (c ∷ r) s h = elim (Bool-cases (c == b'.')) [
    | inl e ↦ parse_digits-IsValid sp (take_digits r) s (rw e at h)
    | inr e ↦ parse_tail-IsValid sp (c ∷ r) s (rw e at h)
  ]

filled :
    (c a : ℕ)
    → is_align c ≡ false
    → begins_with_fill c a ≡ true
    → (is_align a ≡ true) × (is_fill c ≡ true)
unfolding begins_with_fill is_fill is_align is_digit
filled c a e f = (ground arith, ground arith)

parse_align-IsShaped : (r : Bytes) → IsShaped (parse_align r).0
unfolding parse_align is_fill
parse_align-IsShaped [] = record { align = inl (refl, refl); sign = inl refl; type = inl refl }
parse_align-IsShaped (c ∷ []) = elim (Bool-cases (is_align c)) [
  | inl e ↦ rw e (record { align = inr (e, refl); sign = inl refl; type = inl refl })
  | inr e ↦ rw e (record { align = inl (refl, refl); sign = inl refl; type = inl refl })
]
parse_align-IsShaped (c ∷ a ∷ r) = elim (Bool-cases (is_align c)) [
  | inl e ↦ rw e (record { align = inr (e, refl); sign = inl refl; type = inl refl })
  | inr e ↦ elim (Bool-cases (begins_with_fill c a)) [
    | inl f ↦ rw (e, f) (record { align = inr (filled c a e f); sign = inl refl; type = inl refl })
    | inr f ↦ rw (e, f) (record { align = inl (refl, refl); sign = inl refl; type = inl refl })
  ]
]

parse_sign-shaped : (r : Bytes) → ((parse_sign r).0 ≡ 0) ⊎ (is_sign (parse_sign r).0 ≡ true)
unfolding parse_sign
parse_sign-shaped [] = inl refl
parse_sign-shaped (c ∷ r) = ground arith

after_width-IsValid :
    (spec : Bytes) (sp sp' : PrintSpec) (sign : ℕ) (z : Bool) (width : Option ℕ) (r : Bytes)
    → IsShaped sp
    → (sign ≡ 0) ⊎ (is_sign sign ≡ true)
    → parse_after_width spec sp sign z width r ≡ ok sp'
    → IsValid sp'
unfolding parse_after_width
after_width-IsValid spec sp sp' sign z none r s g h = cc
after_width-IsValid spec sp sp' sign z (some w) r s g h =
    parse_precision-IsValid spec sp' (record sp { sign = sign; zero_fill = z; width = w }) r
      (record { align = s.align; sign = g; type = s.type }) h

-- Whatever `parsePrintSpec` accepts is valid: an alignment has a width, `0` fills only to the left
-- of a width, and no number is above 200.
pub parse_print_spec-IsValid :
    (spec : Bytes) (sp : PrintSpec) → parse_print_spec spec ≡ ok sp → IsValid sp
unfolding parse_print_spec
parse_print_spec-IsValid spec sp h =
    after_width-IsValid spec (parse_align spec).0 sp _ _ _ _ (parse_align-IsShaped spec)
      (parse_sign-shaped _) h
