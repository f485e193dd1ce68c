-- ===== src/Format/Spec/RoundTrip.antt =====
-- src/ast/PrintFormat.cpp: the text of a format spec, read by `parsePrintSpec`.
use my_llvm_c.Prelude.{
  ℕ, zero, suc, ◌≤◌, ◌≡◌, refl, sym, ◌∙◌, ◌⊎◌, inl, inr, Bool, true, false, Bytes, [], ◌∷◌, ◌++◌,
  Option, none, some, ◌==◌, arith, Bool-cases, All,
}
use my_llvm_c.Format.Decimal.{
  is_digit, to_string, AllDigits, to_string-AllDigits, stoi-to_string, to_string-BeginsPositive,
}
use my_llvm_c.Format.Spec.{
  PrintSpec, default_spec, ok, is_align, begins_with_fill, parse_align, is_sign, parse_sign,
  parse_zero, take_digits, run_value, is_type, parse_after_width, parse_print_spec,
}
use my_llvm_c.Format.Spec.Valid.{IsValid, IsShaped, is_fill, check_spec-ok}
use my_llvm_c.Format.Spec.Show.{
  show_char, show_precision, show_width, show_zero, show_align, show_numbers, show_filled,
  show_signed, show_spec, BeginsWith, take_digits-append, to_string-nonempty, type_char, type_tail,
  type_begins, begins_digit, parse_precision-show,
}

-- A character that is no zero and no sign.
abbrev Front : ℕ → Type 0
Front c = ((c == b'0') ≡ false) × (is_sign c ≡ false)

type-Front : (t : ℕ) → is_type t ≡ true → Front t
unfolding is_type is_sign
type-Front t e = (ground arith, ground arith)

digit-Front : (c : ℕ) → b'1' ≤ c → c ≤ b'9' → Front c
unfolding is_sign
digit-Front c l h = (ground arith, ground arith)

type_part-Front : (t : ℕ) → (t ≡ 0) ⊎ (is_type t ≡ true) → BeginsWith Front (show_char t)
unfolding show_char
type_part-Front t (inl e) = rw e tt
type_part-Front t (inr e) = let (positive, _) = type_tail t false e in rw positive (type-Front t e)

precision_part-Front :
    (p : Option ℕ) (t : ℕ)
    → (t ≡ 0) ⊎ (is_type t ≡ true)
    → BeginsWith Front (show_precision p ++ show_char t)
unfolding show_precision is_sign
precision_part-Front none t k = type_part-Front t k
precision_part-Front (some p) t k = (refl, refl)

precision_part-digit :
    (p : Option ℕ) (t : ℕ)
    → (t ≡ 0) ⊎ (is_type t ≡ true)
    → BeginsWith (λ c. is_digit c ≡ false) (show_precision p ++ show_char t)
unfolding show_precision is_digit
precision_part-digit none t k = begins_digit (show_char t) (type_begins t k)
precision_part-digit (some p) t k = refl

width_part-AllDigits : (w : ℕ) → AllDigits (show_width w)
unfolding show_width
width_part-AllDigits zero = tt
width_part-AllDigits (suc w) = to_string-AllDigits (suc w)

run_value-show_width : (w : ℕ) → w ≤ 200 → run_value (show_width w) ≡ some w
unfolding run_value show_width
run_value-show_width zero h = refl
run_value-show_width (suc w) h = digits (to_string-nonempty (suc w))
  where
    digits :
        (c : ℕ) × (s : Bytes) × (to_string (suc w) ≡ c ∷ s)
        → run_value (to_string (suc w)) ≡ some (suc w)
    digits (c, s, e) = rw (e, sym e) (stoi-to_string (suc w) (ground arith))

numbers-Front : (w : ℕ) (r : Bytes) → BeginsWith Front r → BeginsWith Front (show_width w ++ r)
unfolding show_width
numbers-Front zero r h = h
numbers-Front (suc w) r h =
    let (c, s, e, low, high, _) = to_string-BeginsPositive (suc w) (omega arith) in
    rw e (digit-Front c low high)

parse_zero-show :
    (z : Bool) (r : Bytes) → BeginsWith Front r → parse_zero (show_zero z ++ r) ≡ (z, r)
unfolding parse_zero show_zero
parse_zero-show true r h = refl
parse_zero-show false [] h = refl
parse_zero-show false (c ∷ r) h = rw (h.0) refl

sign_positive : (g : ℕ) → is_sign g ≡ true → (g == 0) ≡ false
unfolding is_sign
sign_positive g e = ground arith

parse_sign-show :
    (g : ℕ) (r : Bytes)
    → (g ≡ 0) ⊎ (is_sign g ≡ true)
    → BeginsWith (λ c. is_sign c ≡ false) r
    → parse_sign (show_char g ++ r) ≡ (g, r)
unfolding parse_sign show_char
parse_sign-show g [] (inl e) h = rw e refl
parse_sign-show g (c ∷ r) (inl e) h = rw (e, h) refl
parse_sign-show g r (inr e) h = rw (sign_positive g e, e) refl

filled-sign :
    (z : Bool) (r : Bytes)
    → BeginsWith Front r
    → BeginsWith (λ c. is_sign c ≡ false) (show_zero z ++ r)
unfolding show_zero is_sign
filled-sign true r h = refl
filled-sign false [] h = tt
filled-sign false (c ∷ r) h = h.1

digit-align : (r : Bytes) → AllDigits r → All (λ c. is_align c ≡ false) r
unfolding is_align is_digit
digit-align [] d = tt
digit-align (c ∷ r) d = (ground (arith, d.0), digit-align r d.1)

abbrev NoAlign : Bytes → Type 0
NoAlign r = All (λ c. is_align c ≡ false) r

NoAlign-append : (r s : Bytes) → NoAlign r → NoAlign s → NoAlign (r ++ s)
NoAlign-append [] s h k = k
NoAlign-append (c ∷ r) s h k = (h.0, NoAlign-append r s h.1 k)

zero-NoAlign : (z : Bool) → NoAlign (show_zero z)
unfolding show_zero is_align
zero-NoAlign true = (refl, tt)
zero-NoAlign false = tt

precision-NoAlign : (p : Option ℕ) → NoAlign (show_precision p)
unfolding show_precision is_align
precision-NoAlign none = tt
precision-NoAlign (some p) = (refl, digit-align (to_string p) (to_string-AllDigits p))

sign-align : (g : ℕ) → is_sign g ≡ true → is_align g ≡ false
unfolding is_sign is_align
sign-align g e = ground arith

char-NoAlign : (c : ℕ) → (c ≡ 0) ⊎ (is_align c ≡ false) → NoAlign (show_char c)
unfolding show_char
char-NoAlign c (inl e) = rw e tt
char-NoAlign c (inr e) = elim (Bool-cases (c == 0)) [ inl f ↦ rw f tt | inr f ↦ rw f (e, tt) ]

signed-NoAlign : (sp : PrintSpec) → IsShaped sp → NoAlign (show_signed sp)
unfolding show_signed show_filled show_numbers
signed-NoAlign sp h =
    NoAlign-append (show_char sp.sign) (show_filled sp) (char-NoAlign sp.sign (sign_case h.sign)) (
      NoAlign-append (show_zero sp.zero_fill) (show_numbers sp) (zero-NoAlign sp.zero_fill) (
        NoAlign-append (show_width sp.width) (show_precision sp.precision ++ show_char sp.type)
          (digit-align (show_width sp.width) (width_part-AllDigits sp.width))
          (NoAlign-append (show_precision sp.precision) (show_char sp.type)
            (precision-NoAlign sp.precision) (char-NoAlign sp.type (type_case h.type)))))
  where
    sign_case :
        (sp.sign ≡ 0) ⊎ (is_sign sp.sign ≡ true) → (sp.sign ≡ 0) ⊎ (is_align sp.sign ≡ false)
    sign_case (inl e) = inl e
    sign_case (inr e) = inr (sign-align sp.sign e)

    type_case :
        (sp.type ≡ 0) ⊎ (is_type sp.type ≡ true) → (sp.type ≡ 0) ⊎ (is_align sp.type ≡ false)
    type_case (inl e) = inl e
    type_case (inr e) = let (_, _, _, a) = type_char sp.type e in inr a

-- What stands before an alignment is its fill, and nothing else.
begins-fill :
    (c a : ℕ)
    → is_align a ≡ true
    → is_fill c ≡ true
    → (is_align c ≡ false) × (begins_with_fill c a ≡ true)
unfolding is_fill begins_with_fill
begins-fill c a e f = (ground arith, ground arith)

begins-none : (c a : ℕ) → is_align a ≡ false → begins_with_fill c a ≡ false
unfolding begins_with_fill
begins-none c a e = ground arith

unaligned : (r : Bytes) → NoAlign r → parse_align r ≡ (default_spec, r)
unfolding parse_align
unaligned [] h = refl
unaligned (c ∷ []) h = rw (h.0) refl
unaligned (c ∷ a ∷ r) h = rw (h.0, begins-none c a h.1.0) refl

aligned :
    (fill a : ℕ) (r : Bytes)
    → is_align a ≡ true
    → is_fill fill ≡ true
    → parse_align (fill ∷ a ∷ r) ≡ (record default_spec { fill = fill; align = a }, r)
unfolding parse_align
aligned fill a r e f = let (n, b) = begins-fill fill a e f in rw (n, b) refl

align_positive : (a : ℕ) → is_align a ≡ true → (a == 0) ≡ false
unfolding is_align
align_positive a e = ground arith

parse_align-show :
    (fill a : ℕ) (r : Bytes)
    → (a ≡ 0) × (fill ≡ b' ') ⊎ (is_align a ≡ true) × (is_fill fill ≡ true)
    → NoAlign r
    → parse_align (show_align fill a ++ r) ≡ (record default_spec { fill = fill; align = a }, r)
unfolding show_align
parse_align-show fill a r (inl (e, f)) h = rw (e, f) (unaligned r h)
parse_align-show fill a r (inr (e, f)) h = rw (align_positive a e) (aligned fill a r e f)

filled-Front : (sp : PrintSpec) → IsShaped sp → BeginsWith Front (show_numbers sp)
unfolding show_numbers
filled-Front sp h =
    numbers-Front sp.width (show_precision sp.precision ++ show_char sp.type)
      (precision_part-Front sp.precision sp.type h.type)

parse_numbers-show :
    (spec : Bytes) (sp : PrintSpec)
    → IsValid sp
    → parse_after_width spec
        (record default_spec { fill = sp.fill; align = sp.align })
        sp.sign
        sp.zero_fill
        (run_value (take_digits (show_numbers sp)).0)
        (take_digits (show_numbers sp)).1
      ≡ ok sp
unfolding show_numbers parse_after_width
parse_numbers-show spec sp h =
    rw
      (
        take_digits-append (show_width sp.width) (show_precision sp.precision ++ show_char sp.type)
            (width_part-AllDigits sp.width)
            (precision_part-digit sp.precision sp.type h.shaped.type),
        run_value-show_width sp.width h.checked.width,
      )
      (parse_precision-show spec sp sp.precision sp.type h.checked.precision h.shaped.type
        ∙ check_spec-ok sp h.checked)

-- The text of a valid spec is read back as that spec.
pub parse_print_spec-show_spec :
    (sp : PrintSpec) → IsValid sp → parse_print_spec (show_spec sp) ≡ ok sp
unfolding parse_print_spec show_spec show_signed show_filled
parse_print_spec-show_spec sp h =
    rw
      (
        parse_align-show sp.fill sp.align (show_signed sp) h.shaped.align
            (signed-NoAlign sp h.shaped),
        parse_sign-show sp.sign (show_filled sp) h.shaped.sign
            (filled-sign sp.zero_fill (show_numbers sp) (filled-Front sp h.shaped)),
        parse_zero-show sp.zero_fill (show_numbers sp) (filled-Front sp h.shaped),
      )
      (parse_numbers-show (show_spec sp) sp h)
