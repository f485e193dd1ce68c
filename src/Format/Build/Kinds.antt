-- ===== src/Format/Build/Kinds.antt =====
-- src/ast/PrintFormat.cpp: what printf takes for the conversions of `defaultConversionFor` and
-- `specToPrintfConversion`, kind by kind.
use my_llvm_c.Prelude.{
  ℕ, ◌≡◌, refl, subst, true, false, [], ◌∷◌, ◌++◌, Option, none, some, ◌==◌, if◌then◌else◌, List,
  arith, inl, inr, Bool-cases, codes, not, ◌&&◌,
}
use my_llvm_c.Format.Spec.{PrintSpec}
use my_llvm_c.Format.Spec.Conversion.{
  PrintArgKind, kind_int32, kind_int64, kind_uint32, kind_uint64, kind_char, kind_float,
  kind_c_string, kind_pointer, kind_bool, kind_to_string, kind_str, is_int, is_64, is_float,
  is_string_like, takes_no_spec, ok_type, needs_render, is_some, precision_text, int_tail, tail,
}
use my_llvm_c.Format.Build.Printf.{
  Argument, arg_int, arg_long, arg_double, arg_string, arg_pointer, Mode, in_text, letter_args,
  is_letter, is_int_letter, is_double_letter, Reads,
}
use my_llvm_c.Format.Build.Directive.{
  AtWidth, AtPrecision, before_precision, Passes-Reads, Passes-precision, Reads-letter, Reads-long,
  Reads-star,
}

-- What the code generator passes for an argument of a kind: `str` is a length and a pointer.
unfoldable pub kind_args : PrintArgKind → List Argument
kind_args kind_int32 = arg_int ∷ []
kind_args kind_int64 = arg_long ∷ []
kind_args kind_uint32 = arg_int ∷ []
kind_args kind_uint64 = arg_long ∷ []
kind_args kind_char = arg_int ∷ []
kind_args kind_float = arg_double ∷ []
kind_args kind_c_string = arg_string ∷ []
kind_args kind_str = arg_int ∷ arg_string ∷ []
kind_args kind_pointer = arg_pointer ∷ []
kind_args kind_bool = arg_string ∷ []
kind_args kind_to_string = arg_string ∷ []

-- A value that is rendered first is passed as a C string.
unfoldable pub passed : PrintArgKind → PrintSpec → List Argument
unfolding kind_args
passed k sp = if needs_render sp then arg_string ∷ [] else kind_args k

-- What `okType` leaves of a type character that is there.
abbrev TypeFits : PrintArgKind → ℕ → Type 0
TypeFits k t = (not (t == 0) && not (ok_type k t)) ≡ false

int32_letter : (t : ℕ) → (t == 0) ≡ false → TypeFits kind_int32 t → is_int_letter t ≡ true
unfolding ok_type is_int is_float is_string_like is_int_letter
int32_letter t z f = ground arith

int64_letter : (t : ℕ) → (t == 0) ≡ false → TypeFits kind_int64 t → is_int_letter t ≡ true
unfolding ok_type is_int is_float is_string_like is_int_letter
int64_letter t z f = ground arith

uint32_letter : (t : ℕ) → (t == 0) ≡ false → TypeFits kind_uint32 t → is_int_letter t ≡ true
unfolding ok_type is_int is_float is_string_like is_int_letter
uint32_letter t z f = ground arith

uint64_letter : (t : ℕ) → (t == 0) ≡ false → TypeFits kind_uint64 t → is_int_letter t ≡ true
unfolding ok_type is_int is_float is_string_like is_int_letter
uint64_letter t z f = ground arith

float_letter :
    (t : ℕ)
    → (t == 0) ≡ false
    → TypeFits kind_float t
    → (is_letter t ≡ true) × (letter_args t ≡ arg_double ∷ [])
unfolding ok_type is_int is_float is_string_like is_letter is_int_letter is_double_letter
    letter_args
float_letter t z f = (ground arith, ground arith)

int_letter_args :
    (t : ℕ) → is_int_letter t ≡ true → (is_letter t ≡ true) × (letter_args t ≡ arg_int ∷ [])
unfolding is_letter letter_args
int_letter_args t l = rw l (refl, refl)

pub Reads-int :
    {m : Mode} (t : ℕ)
    → AtPrecision m
    → is_int_letter t ≡ true
    → Reads m (t ∷ []) (arg_int ∷ []) in_text
Reads-int {m} t h l =
    let (e, a) = int_letter_args t l in
    subst (λ z. Reads m (t ∷ []) z in_text) a (Reads-letter t h e)

pub Reads-double :
    {m : Mode} (t : ℕ)
    → AtPrecision m
    → is_letter t ≡ true
    → letter_args t ≡ arg_double ∷ []
    → Reads m (t ∷ []) (arg_double ∷ []) in_text
Reads-double {m} t h e a = subst (λ z. Reads m (t ∷ []) z in_text) a (Reads-letter t h e)

pub Reads-string : {m : Mode} → AtPrecision m → Reads m (codes "s") (arg_string ∷ []) in_text
unfolding letter_args is_letter is_int_letter is_double_letter
Reads-string h = Reads-letter b's' h refl

-- The end of a conversion, for each kind that takes a spec. Only `float` may have a precision.
pub Reads-tail :
    {m : Mode} (k : PrintArgKind) (p : Option ℕ) (t : ℕ)
    → AtWidth m
    → takes_no_spec k ≡ false
    → TypeFits k t
    → (is_some p && not (is_float k)) ≡ false
    → Reads m (precision_text p ++ tail k t) (kind_args k) in_text
unfolding kind_args tail int_tail takes_no_spec is_float is_some precision_text is_letter
    is_int_letter is_double_letter letter_args is_64
Reads-tail kind_int32 none t h n f p = elim (Bool-cases (t == 0)) [
  | inl e ↦ rw e (Reads-int b'd' (before_precision h) refl)
  | inr e ↦ rw e (Reads-int t (before_precision h) (int32_letter t e f))
]
Reads-tail kind_uint32 none t h n f p = elim (Bool-cases (t == 0)) [
  | inl e ↦ rw e (Reads-int b'u' (before_precision h) refl)
  | inr e ↦ rw e (Reads-int t (before_precision h) (uint32_letter t e f))
]
Reads-tail kind_int64 none t h n f p = elim (Bool-cases (t == 0)) [
  | inl e ↦ rw e (Reads-long b'd' (before_precision h) refl)
  | inr e ↦ rw e (Reads-long t (before_precision h) (int64_letter t e f))
]
Reads-tail kind_uint64 none t h n f p = elim (Bool-cases (t == 0)) [
  | inl e ↦ rw e (Reads-long b'u' (before_precision h) refl)
  | inr e ↦ rw e (Reads-long t (before_precision h) (uint64_letter t e f))
]
Reads-tail {m} kind_float p t h n f q = elim (Bool-cases (t == 0)) [
  | inl e ↦ rw e (Passes-Reads (Passes-precision m p h) (λ m' h'. Reads-double b'f' h' refl refl))
  | inr e ↦
      let (l, a) = float_letter t e f in
      rw e (Passes-Reads (Passes-precision m p h) (λ m' h'. Reads-double t h' l a))
]
Reads-tail kind_str none t h n f p = Reads-star h
Reads-tail kind_bool none t h n f p = Reads-string (before_precision h)
Reads-tail kind_to_string none t h n f p = Reads-string (before_precision h)
Reads-tail kind_int32 (some q) t h n f p = cc
Reads-tail kind_int64 (some q) t h n f p = cc
Reads-tail kind_uint32 (some q) t h n f p = cc
Reads-tail kind_uint64 (some q) t h n f p = cc
Reads-tail kind_bool (some q) t h n f p = cc
Reads-tail kind_to_string (some q) t h n f p = cc
Reads-tail kind_str (some q) t h n f p = cc
Reads-tail kind_char q t h n f p = cc
Reads-tail kind_c_string q t h n f p = cc
Reads-tail kind_pointer q t h n f p = cc
