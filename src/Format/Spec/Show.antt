-- ===== src/Format/Spec/Show.antt =====
-- src/ast/PrintFormat.cpp: the text of a format spec, and its numbers and type read from that text.
use my_llvm_c.Prelude.{
  ℕ, zero, suc, ◌≡◌, refl, sym, ◌∙◌, ◌⊎◌, inl, inr, Bool, true, false, ◌&&◌, ◌||◌, Bytes, [], ◌∷◌,
  ◌++◌, Option, none, some, ◌==◌, if◌then◌else◌, arith,
}
use my_llvm_c.Format.Decimal.{
  is_digit, to_string, AllDigits, to_string-AllDigits, stoi-to_string, to_string-BeginsPositive,
}
use my_llvm_c.Format.Spec.{
  PrintSpec, is_align, is_sign, take_digits, is_type, check_spec, parse_type, parse_tail,
  parse_after_precision, parse_digits_of_precision, parse_precision,
}
use my_llvm_c.Format.Spec.Valid.{AtMost}

-- One optional character.
unfoldable pub show_char : ℕ → Bytes
show_char c = if c == 0 then [] else c ∷ []

unfoldable pub show_precision : Option ℕ → Bytes
show_precision none = []
show_precision (some p) = b'.' ∷ to_string p

unfoldable pub show_width : ℕ → Bytes
show_width zero = []
show_width (suc w) = to_string (suc w)

unfoldable pub show_zero : Bool → Bytes
show_zero z = if z then b'0' ∷ [] else []

unfoldable pub show_align : ℕ → ℕ → Bytes
show_align fill align = if align == 0 then [] else fill ∷ align ∷ []

-- The text behind the zero flag, behind the sign, and behind the alignment.
unfoldable pub show_numbers : PrintSpec → Bytes
unfolding show_char show_precision show_width
show_numbers sp = show_width sp.width ++ (show_precision sp.precision ++ show_char sp.type)

unfoldable pub show_filled : PrintSpec → Bytes
unfolding show_zero show_numbers
show_filled sp = show_zero sp.zero_fill ++ show_numbers sp

unfoldable pub show_signed : PrintSpec → Bytes
unfolding show_char show_filled
show_signed sp = show_char sp.sign ++ show_filled sp

-- A text of the spec, with the fill character always written in front of an alignment.
unfoldable pub show_spec : PrintSpec → Bytes
unfolding show_align show_signed
show_spec sp = show_align sp.fill sp.align ++ show_signed sp

abbrev pub BeginsWith : (ℕ → Type 0) → Bytes → Type 0
BeginsWith P [] = Unit
BeginsWith P (c ∷ s) = P c

-- A text without digits in front, behind a run of digits.
pub take_digits_none :
    (r : Bytes) → BeginsWith (λ c. is_digit c ≡ false) r → take_digits r ≡ ([], r)
unfolding take_digits
take_digits_none [] h = refl
take_digits_none (c ∷ r) h = rw h refl

pub take_digits-append :
    (run r : Bytes)
    → AllDigits run
    → BeginsWith (λ c. is_digit c ≡ false) r
    → take_digits (run ++ r) ≡ (run, r)
unfolding take_digits
take_digits-append [] r d h = take_digits_none r h
take_digits-append (c ∷ run) r d h = rw (d.0, take_digits-append run r d.1 h) refl

pub to_string-zero : to_string 0 ≡ b'0' ∷ []
unfolding to_string
to_string-zero = refl

pub to_string-nonempty : (n : ℕ) → (c : ℕ) × (s : Bytes) × (to_string n ≡ c ∷ s)
to_string-nonempty zero = (b'0', [], to_string-zero)
to_string-nonempty (suc n) =
    let (c, s, e, _, _, _) = to_string-BeginsPositive (suc n) (omega arith) in (c, s, e)

-- What a type character is not.
pub type_char :
    (c : ℕ)
    → is_type c ≡ true
    → ((c == b'.') ≡ false) × (is_digit c ≡ false) × (is_sign c ≡ false) × (is_align c ≡ false)
unfolding is_type is_digit is_sign is_align
type_char c h = (ground arith, ground arith, ground arith, ground arith)

pub type_tail :
    (t : ℕ) (z : Bool)
    → is_type t ≡ true
    → ((t == 0) ≡ false) × ((z && (t == b'<' || t == b'^')) ≡ false)
unfolding is_type
type_tail t z e = (ground arith, ground arith)

-- The type, read from a spec without one.
pub parse_tail-show :
    (spec : Bytes) (sp : PrintSpec) (t : ℕ)
    → (t ≡ 0) ⊎ (is_type t ≡ true)
    → parse_tail spec (record sp { type = 0 }) (show_char t) ≡ check_spec (record sp { type = t })
unfolding parse_tail parse_type show_char
parse_tail-show spec sp t (inl e) = rw e refl
parse_tail-show spec sp t (inr e) =
    let (positive, tail) = type_tail t sp.zero_fill e in rw (positive, tail, e) refl

pub type_begins :
    (t : ℕ)
    → (t ≡ 0) ⊎ (is_type t ≡ true)
    → BeginsWith (λ c. ((c == b'.') ≡ false) × (is_digit c ≡ false)) (show_char t)
unfolding show_char
type_begins t (inl e) = rw e tt
type_begins t (inr e) =
    let (dot, digit, _, _) = type_char t e in
    let (positive, _) = type_tail t false e in rw positive (dot, digit)

pub parse_precision-none :
    (spec : Bytes) (sp : PrintSpec) (r : Bytes)
    → BeginsWith (λ c. ((c == b'.') ≡ false) × (is_digit c ≡ false)) r
    → parse_precision spec sp r ≡ parse_tail spec sp r
unfolding parse_precision
parse_precision-none spec sp [] h = refl
parse_precision-none spec sp (c ∷ r) h = rw (h.0) refl

pub begins_digit :
    (r : Bytes)
    → BeginsWith (λ c. ((c == b'.') ≡ false) × (is_digit c ≡ false)) r
    → BeginsWith (λ c. is_digit c ≡ false) r
begins_digit [] h = tt
begins_digit (c ∷ r) h = h.1

-- The precision, read from a spec without one and without a type.
pub parse_precision-show :
    (spec : Bytes) (sp : PrintSpec) (p : Option ℕ) (t : ℕ)
    → AtMost 200 p
    → (t ≡ 0) ⊎ (is_type t ≡ true)
    → parse_precision spec
        (record sp { precision = none; type = 0 })
        (show_precision p ++ show_char t)
      ≡ check_spec (record sp { precision = p; type = t })
unfolding show_precision parse_precision parse_digits_of_precision parse_after_precision
parse_precision-show spec sp none t h k =
    parse_precision-none spec (record sp { precision = none; type = 0 }) (show_char t)
      (type_begins t k)
    ∙ parse_tail-show spec (record sp { precision = none }) t k
parse_precision-show spec sp (some p) t h k = digits (to_string-nonempty p)
  where
    sp0 : PrintSpec
    sp0 = record sp { precision = none; type = 0 }

    digits :
        (c : ℕ) × (s : Bytes) × (to_string p ≡ c ∷ s)
        → parse_precision spec sp0 (b'.' ∷ (to_string p ++ show_char t))
          ≡ check_spec (record sp { precision = some p; type = t })
    digits (c, s, e) =
        rw
          (
            take_digits-append (to_string p) (show_char t) (to_string-AllDigits p)
                (begins_digit (show_char t) (type_begins t k)),
            e,
            sym e,
            stoi-to_string p (ground arith),
          )
          (parse_tail-show spec (record sp { precision = some p }) t k)
