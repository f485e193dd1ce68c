-- ===== src/Format/Build/Directive.antt =====
-- src/ast/PrintFormat.cpp: what printf takes for the conversions of `defaultConversionFor` and
-- `specToPrintfConversion`.
use my_llvm_c.Prelude.{
  ℕ, zero, suc, ◌≡◌, refl, sym, subst, ◌≤◌, Bool, true, false, Bytes, [], ◌∷◌, ◌++◌, Option, none,
  some, ◌==◌, if◌then◌else◌, List, arith, inl, inr, Bool-cases, codes,
}
use my_llvm_c.Format.Decimal.{
  is_digit, AllDigits, to_string, to_string-BeginsPositive, to_string-AllDigits,
}
use my_llvm_c.Format.Spec.{PrintSpec}
use my_llvm_c.Format.Spec.Conversion.{
  PrintArgKind, left_align, sign_flag, flags, width_text, precision_text,
}
use my_llvm_c.Format.Build.Printf.{
  Argument, arg_int, arg_long, arg_string, Mode, in_text, percent, in_flags, in_width, dot,
  in_precision, starred, long_once, long_twice, is_flag, letter_args, is_letter, is_int_letter,
  is_double_letter, letter_mode, width_mode, flags_mode, precision_mode, next_mode, next_args,
  Reads, Reads-nil, Reads-append, Reads-char, Passes, Passes-append, Passes-nil,
}

-- Modes in which a flag, a width, or a precision may follow.
pub data AtFlags : Mode → Type 0 where
  at_percent : AtFlags percent
  at_flags : AtFlags in_flags

pub data AtWidth : Mode → Type 0 where
  before_width : {m : Mode} → AtFlags m → AtWidth m
  at_width : AtWidth in_width

pub data AtPrecision : Mode → Type 0 where
  before_precision : {m : Mode} → AtWidth m → AtPrecision m
  at_dot : AtPrecision dot
  at_precision : AtPrecision in_precision

Passes-char :
    (m : Mode) (c : ℕ) (P : Mode → Type 0)
    → next_args m c ≡ []
    → P (next_mode m c)
    → Passes m (c ∷ []) P
Passes-char m c P e h = record {
  end = next_mode m c;
  reads = subst (λ args. Reads m (c ∷ []) args (next_mode m c)) e (Reads-char m c);
  holds = h;
}

pub Passes-Reads :
    {m m' : Mode} {s t : Bytes} {P : Mode → Type 0} {args : List Argument}
    → Passes m s P
    → ((m'' : Mode) → P m'' → Reads m'' t args m')
    → Reads m (s ++ t) args m'
Passes-Reads h k = Reads-append h.reads (k h.end h.holds)

-- What a flag and a digit do.
flag_facts :
    (c : ℕ)
    → is_flag c ≡ true
    → (letter_args c ≡ []) × ((c == b'%') ≡ false) × (flags_mode c ≡ in_flags)
unfolding is_flag letter_args is_int_letter is_double_letter flags_mode
flag_facts c f = (ground arith, ground arith, ground arith)

digit_facts :
    (c : ℕ)
    → is_digit c ≡ true
    → (letter_args c ≡ []) × (width_mode c ≡ in_width) × (precision_mode c ≡ in_precision)
unfolding is_digit letter_args is_int_letter is_double_letter width_mode precision_mode
digit_facts c f = (ground arith, ground arith, ground arith)

positive_facts :
    (c : ℕ)
    → b'1' ≤ c
    → c ≤ b'9'
    → (letter_args c ≡ []) × ((c == b'%') ≡ false) × (flags_mode c ≡ in_width)
unfolding is_digit letter_args is_int_letter is_double_letter is_flag flags_mode width_mode
positive_facts c l h = (ground arith, ground arith, ground arith)

flag_args : {m : Mode} (c : ℕ) → AtFlags m → is_flag c ≡ true → next_args m c ≡ []
unfolding next_args
flag_args c at_percent f = (flag_facts c f).0
flag_args c at_flags f = (flag_facts c f).0

flag_mode : {m : Mode} (c : ℕ) → AtFlags m → is_flag c ≡ true → AtFlags (next_mode m c)
unfolding next_mode
flag_mode c at_percent f = let (_, p, e) = flag_facts c f in rw (p, e) at_flags
flag_mode c at_flags f = let (_, p, e) = flag_facts c f in rw e at_flags

Passes-flag : (m : Mode) (c : ℕ) → AtFlags m → is_flag c ≡ true → Passes m (c ∷ []) AtFlags
Passes-flag m c h f = Passes-char m c AtFlags (flag_args c h f) (flag_mode c h f)

Passes-option :
    (m : Mode) (c : ℕ) (b : Bool)
    → AtFlags m
    → is_flag c ≡ true
    → Passes m (if b then c ∷ [] else []) AtFlags
Passes-option m c true h f = Passes-flag m c h f
Passes-option m c false h f = Passes-nil m AtFlags h

Passes-sign : (m : Mode) (s : ℕ) → AtFlags m → Passes m (sign_flag s) AtFlags
unfolding sign_flag is_flag
Passes-sign m s h = elim (Bool-cases (s == b'+')) [
  | inl e ↦ rw e (Passes-flag m b'+' h refl)
  | inr e ↦ rw e (Passes-option m b' ' (s == b' ') h refl)
]

pub Passes-flags :
    (m : Mode) (k : PrintArgKind) (sp : PrintSpec) → AtFlags m → Passes m (flags k sp) AtFlags
unfolding flags is_flag
Passes-flags m k sp h = Passes-append (Passes-sign m sp.sign h) (λ m' h'.
    Passes-append (Passes-option m' b'0' sp.zero_fill h' refl)
      (λ m'' h''. Passes-option m'' b'-' (left_align k sp) h'' refl))

-- One character, to a known end.
pub Reads-to :
    (m : Mode) (c : ℕ) (args : List Argument) (m' : Mode)
    → next_args m c ≡ args
    → next_mode m c ≡ m'
    → Reads m (c ∷ []) args m'
Reads-to m c args m' a e =
    subst (λ z. Reads m (c ∷ []) z m') a
      (subst (Reads m (c ∷ []) (next_args m c)) e (Reads-char m c))

-- A run of digits.
Reads-width_digits : (s : Bytes) → AllDigits s → Reads in_width s [] in_width
unfolding next_mode next_args
Reads-width_digits [] d = Reads-nil in_width
Reads-width_digits (c ∷ s) d =
    let (a, w, _) = digit_facts c d.0 in
    Reads-append (Reads-to in_width c [] in_width a w) (Reads-width_digits s d.1)

Reads-precision_digits : (s : Bytes) → AllDigits s → Reads in_precision s [] in_precision
unfolding next_mode next_args
Reads-precision_digits [] d = Reads-nil in_precision
Reads-precision_digits (c ∷ s) d =
    let (a, _, p) = digit_facts c d.0 in
    Reads-append (Reads-to in_precision c [] in_precision a p) (Reads-precision_digits s d.1)

Reads-width_start :
    {m : Mode} (c : ℕ) → AtFlags m → b'1' ≤ c → c ≤ b'9' → Reads m (c ∷ []) [] in_width
unfolding next_mode next_args
Reads-width_start c at_percent l h =
    let (a, p, e) = positive_facts c l h in Reads-to percent c [] in_width a (rw p e)
Reads-width_start c at_flags l h =
    let (a, _, e) = positive_facts c l h in Reads-to in_flags c [] in_width a e

pub Passes-width : (m : Mode) (w : ℕ) → AtFlags m → Passes m (width_text w) AtWidth
unfolding width_text
Passes-width m zero h = Passes-nil m AtWidth (before_width h)
Passes-width m (suc w) h =
    let (c, s, e, l, g, d) = to_string-BeginsPositive (suc w) (omega arith) in
    record {
      end = in_width;
      reads =
          subst (λ t. Reads m t [] in_width) (sym e)
            (Reads-append (Reads-width_start c h l g) (Reads-width_digits s d));
      holds = at_width;
    }

Reads-dot : {m : Mode} → AtWidth m → Reads m (b'.' ∷ []) [] dot
unfolding next_mode next_args width_mode flags_mode is_flag is_digit letter_args is_int_letter
    is_double_letter
Reads-dot (before_width at_percent) = Reads-to percent b'.' [] dot refl refl
Reads-dot (before_width at_flags) = Reads-to in_flags b'.' [] dot refl refl
Reads-dot at_width = Reads-to in_width b'.' [] dot refl refl

star_digit : (c : ℕ) → is_digit c ≡ true → (c == b'*') ≡ false
unfolding is_digit
star_digit c d = ground arith

Passes-dot_digits : (s : Bytes) → AllDigits s → Passes dot s AtPrecision
unfolding next_mode next_args
Passes-dot_digits [] d = Passes-nil dot AtPrecision at_dot
Passes-dot_digits (c ∷ s) d =
    let (a, _, p) = digit_facts c d.0 in
    record {
      end = in_precision;
      reads =
          Reads-append (Reads-to dot c [] in_precision a (rw (star_digit c d.0) p))
            (Reads-precision_digits s d.1);
      holds = at_precision;
    }

pub Passes-precision :
    (m : Mode) (p : Option ℕ) → AtWidth m → Passes m (precision_text p) AtPrecision
unfolding precision_text
Passes-precision m none h = Passes-nil m AtPrecision (before_precision h)
Passes-precision m (some p) h =
    let digits = Passes-dot_digits (to_string p) (to_string-AllDigits p) in
    record {
      end = digits.end;
      reads = Reads-append (Reads-dot h) digits.reads;
      holds = digits.holds;
    }

-- What a letter does.
letter_facts :
    (c : ℕ)
    → is_letter c ≡ true
    → ((c == b'%') ≡ false)
      × ((c == b'*') ≡ false)
      × (flags_mode c ≡ in_text)
      × (width_mode c ≡ in_text)
      × (precision_mode c ≡ in_text)
unfolding is_letter is_int_letter is_double_letter flags_mode is_flag width_mode precision_mode
    letter_mode is_digit
letter_facts c h = (ground arith, ground arith, ground arith, ground arith, ground arith)

pub Reads-letter :
    {m : Mode} (c : ℕ)
    → AtPrecision m
    → is_letter c ≡ true
    → Reads m (c ∷ []) (letter_args c) in_text
unfolding next_mode next_args
Reads-letter c (before_precision (before_width at_percent)) h =
    let (p, _, e, _, _) = letter_facts c h in
    Reads-to percent c (letter_args c) in_text refl (rw p e)
Reads-letter c (before_precision (before_width at_flags)) h =
    let (_, _, e, _, _) = letter_facts c h in Reads-to in_flags c (letter_args c) in_text refl e
Reads-letter c (before_precision at_width) h =
    let (_, _, _, e, _) = letter_facts c h in Reads-to in_width c (letter_args c) in_text refl e
Reads-letter c at_dot h =
    let (_, p, _, _, e) = letter_facts c h in Reads-to dot c (letter_args c) in_text refl (rw p e)
Reads-letter c at_precision h =
    let (_, _, _, _, e) = letter_facts c h in Reads-to in_precision c (letter_args c) in_text refl e

Reads-l : {m : Mode} → AtPrecision m → Reads m (b'l' ∷ []) [] long_once
unfolding next_mode next_args flags_mode width_mode precision_mode letter_mode is_flag is_digit
    letter_args is_int_letter is_double_letter is_letter
Reads-l (before_precision (before_width at_percent)) = Reads-to percent b'l' [] long_once refl refl
Reads-l (before_precision (before_width at_flags)) = Reads-to in_flags b'l' [] long_once refl refl
Reads-l (before_precision at_width) = Reads-to in_width b'l' [] long_once refl refl
Reads-l at_dot = Reads-to dot b'l' [] long_once refl refl
Reads-l at_precision = Reads-to in_precision b'l' [] long_once refl refl

-- A letter behind `ll`.
pub Reads-long :
    {m : Mode} (c : ℕ)
    → AtPrecision m
    → is_int_letter c ≡ true
    → Reads m (b'l' ∷ b'l' ∷ c ∷ []) (arg_long ∷ []) in_text
unfolding next_mode next_args
Reads-long c h i = Reads-append (Reads-l h) (
    Reads-append (Reads-to long_once b'l' [] long_twice refl refl)
      (Reads-to long_twice c (arg_long ∷ []) in_text refl (rw i refl)))

pub Reads-star : {m : Mode} → AtWidth m → Reads m (codes ".*s") (arg_int ∷ arg_string ∷ []) in_text
unfolding next_mode next_args letter_args is_int_letter is_double_letter
Reads-star h = Reads-append (Reads-dot h) (
    Reads-append (Reads-to dot b'*' [] starred refl refl)
      (Reads-to starred b's' (arg_int ∷ arg_string ∷ []) in_text refl refl))
