-- ===== src/Format/Build/Convert.antt =====
-- src/ast/PrintFormat.cpp: what printf takes for the conversion of one placeholder.
use my_llvm_c.Prelude.{
  ◌≡◌, refl, ap, subst, Bool, false, not, ◌&&◌, Bytes, [], ◌∷◌, ◌++◌, ◌==◌, inl, inr, Bool-cases,
  codes,
}
use my_llvm_c.Format.Spec.{PrintSpec}
use my_llvm_c.Format.Spec.Conversion.{
  PrintArgKind, kind_int32, kind_int64, kind_uint32, kind_uint64, kind_char, kind_float,
  kind_c_string, kind_pointer, kind_bool, kind_to_string, kind_str, default_conversion, is_int,
  is_float, takes_no_spec, ok_type, needs_render, is_some, flags, width_text, precision_text, tail,
  Conversion, converted, unsupported, spec_to_printf_conversion,
}
use my_llvm_c.Format.Build.Printf.{
  arg_string, in_text, percent, letter_args, is_letter, is_int_letter, is_double_letter, next_mode,
  next_args, Reads, Reads-append,
}
use my_llvm_c.Format.Build.Directive.{
  at_percent, before_precision, before_width, AtPrecision, Reads-letter, Passes-Reads, Passes-flags,
  Passes-width, Reads-to, Reads-star, Reads-long,
}
use my_llvm_c.Format.Build.Kinds.{
  kind_args, passed, Reads-tail, Reads-int, Reads-double, Reads-string,
}

pub Reads-percent : Reads in_text (b'%' ∷ []) [] percent
unfolding next_mode next_args
Reads-percent = Reads-to in_text b'%' [] percent refl refl

converted_text : Conversion → Bytes
converted_text (converted text render) = text
converted_text unsupported = []

text_eq : (s t : Bytes) (a b : Bool) → converted s a ≡ converted t b → s ≡ t
unfolding converted_text
text_eq s t a b h = ap converted_text h

before : AtPrecision percent
before = before_precision (before_width at_percent)

Reads-rendered : Reads in_text (codes "%s") (arg_string ∷ []) in_text
Reads-rendered =
    Reads-append Reads-percent (Reads-string (before_precision (before_width at_percent)))

-- The whole conversion of a kind that takes a spec.
Reads-direct :
    (k : PrintArgKind) (sp : PrintSpec)
    → takes_no_spec k ≡ false
    → (not (sp.type == 0) && not (ok_type k sp.type)) ≡ false
    → (is_some sp.precision && not (is_float k)) ≡ false
    → Reads in_text
        (b'%'
          ∷ (flags k sp
              ++ (width_text sp.width ++ (precision_text sp.precision ++ tail k sp.type))))
        (kind_args k)
        in_text
Reads-direct k sp n t p = Reads-append Reads-percent (
    Passes-Reads (Passes-flags percent k sp at_percent) (λ m h.
      Passes-Reads (Passes-width m sp.width h)
        (λ m' h'. Reads-tail k sp.precision sp.type h' n t p)))

-- What printf takes for a conversion is what is passed for the argument.
pub Reads-conversion :
    (k : PrintArgKind) (sp : PrintSpec) (text : Bytes) (render : Bool)
    → spec_to_printf_conversion k sp ≡ converted text render
    → Reads in_text text (passed k sp) in_text
unfolding spec_to_printf_conversion passed
Reads-conversion k sp text render h = elim (Bool-cases (takes_no_spec k)) [
  | inl e ↦ cc (rw e at h)
  | inr e ↦ elim (Bool-cases (not (sp.type == 0) && not (ok_type k sp.type))) [
    | inl f ↦ cc (rw (e, f) at h)
    | inr f ↦ elim (Bool-cases (is_some sp.precision && not (is_float k))) [
      | inl g ↦ cc (rw (e, f, g) at h)
      | inr g ↦ elim (Bool-cases (sp.zero_fill && not (is_int k) && not (is_float k))) [
        | inl z ↦ cc (rw (e, f, g, z) at h)
        | inr z ↦ elim (Bool-cases (needs_render sp)) [
          | inl r ↦ rw r (
              subst (λ s. Reads in_text s (arg_string ∷ []) in_text)
                (text_eq _ _ _ _ (rw (e, f, g, z, r) at h)) Reads-rendered)
          | inr r ↦ rw r (
              subst (λ s. Reads in_text s (kind_args k) in_text)
                (text_eq _ _ _ _ (rw (e, f, g, z, r) at h)) (Reads-direct k sp e f g))
        ]
      ]
    ]
  ]
]

-- The conversions of `{}`.
pub Reads-default : (k : PrintArgKind) → Reads in_text (default_conversion k) (kind_args k) in_text
unfolding default_conversion kind_args is_int_letter is_letter letter_args is_double_letter
Reads-default kind_int32 = Reads-append Reads-percent (Reads-int b'd' before refl)
Reads-default kind_int64 = Reads-append Reads-percent (Reads-long b'd' before refl)
Reads-default kind_uint32 = Reads-append Reads-percent (Reads-int b'u' before refl)
Reads-default kind_uint64 = Reads-append Reads-percent (Reads-long b'u' before refl)
Reads-default kind_char = Reads-append Reads-percent (Reads-letter b'c' before refl)
Reads-default kind_float = Reads-append Reads-percent (Reads-double b'g' before refl refl)
Reads-default kind_c_string = Reads-rendered
Reads-default kind_str = Reads-append Reads-percent (Reads-star (before_width at_percent))
Reads-default kind_pointer = Reads-append Reads-percent (Reads-letter b'p' before refl)
Reads-default kind_bool = Reads-rendered
Reads-default kind_to_string = Reads-rendered
