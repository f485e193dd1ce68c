-- ===== src/Format/Build/Printf.antt =====
-- How C's printf reads a format: the conversions it finds and the arguments that each takes. It describes
-- what the format of src/ast/PrintFormat.cpp means to its consumer, and translates no code.
use my_llvm_c.Prelude.{
  ℕ, ◌≡◌, refl, ◌∙◌, ap, sym, Bool, ◌||◌, Bytes, [], ◌∷◌, ◌++◌, Option, none, some, ◌==◌,
  if◌then◌else◌, List, append_assoc,
}
use my_llvm_c.Format.Decimal.{is_digit}

-- What printf takes from its arguments.
pub data Argument : Type 0 where
  arg_int arg_long arg_double arg_string arg_pointer : Argument

-- Where the reader is: in plain text, or in a part of a conversion.
pub data Mode : Type 0 where
  in_text percent in_flags in_width dot in_precision starred long_once long_twice bad : Mode

unfoldable pub is_flag : ℕ → Bool
is_flag c = c == b'+' || c == b'-' || c == b' ' || c == b'0' || c == b'#'

unfoldable pub is_int_letter : ℕ → Bool
is_int_letter c = c == b'd' || c == b'u' || c == b'x' || c == b'X' || c == b'o' || c == b'b'

unfoldable pub is_double_letter : ℕ → Bool
is_double_letter c = c == b'g' || c == b'f' || c == b'e'

-- The argument of a conversion letter without a length.
unfoldable pub letter_args : ℕ → List Argument
unfolding is_int_letter is_double_letter
letter_args c =
    if is_int_letter c || c == b'c'
    then arg_int ∷ []
    else if is_double_letter c
    then arg_double ∷ []
    else if c == b's'
    then arg_string ∷ []
    else if c == b'p'
    then arg_pointer ∷ []
    else []

unfoldable pub is_letter : ℕ → Bool
unfolding is_int_letter is_double_letter
is_letter c = is_int_letter c || c == b'c' || is_double_letter c || c == b's' || c == b'p'

unfoldable pub letter_mode : ℕ → Mode
unfolding is_letter
letter_mode c = if c == b'l' then long_once else if is_letter c then in_text else bad

unfoldable pub width_mode : ℕ → Mode
unfolding is_digit letter_mode
width_mode c = if is_digit c then in_width else if c == b'.' then dot else letter_mode c

unfoldable pub flags_mode : ℕ → Mode
unfolding is_flag width_mode
flags_mode c = if is_flag c then in_flags else width_mode c

unfoldable pub precision_mode : ℕ → Mode
unfolding is_digit letter_mode
precision_mode c = if is_digit c then in_precision else letter_mode c

unfoldable pub next_mode : Mode → ℕ → Mode
unfolding flags_mode width_mode precision_mode is_int_letter
next_mode in_text c = if c == b'%' then percent else in_text
next_mode percent c = if c == b'%' then in_text else flags_mode c
next_mode in_flags c = flags_mode c
next_mode in_width c = width_mode c
next_mode dot c = if c == b'*' then starred else precision_mode c
next_mode in_precision c = precision_mode c
next_mode starred c = if c == b's' then in_text else bad
next_mode long_once c = if c == b'l' then long_twice else bad
next_mode long_twice c = if is_int_letter c then in_text else bad
next_mode bad c = bad

unfoldable pub next_args : Mode → ℕ → List Argument
unfolding letter_args is_int_letter
next_args in_text c = []
next_args percent c = letter_args c
next_args in_flags c = letter_args c
next_args in_width c = letter_args c
next_args dot c = letter_args c
next_args in_precision c = letter_args c
next_args starred c = arg_int ∷ arg_string ∷ []
next_args long_once c = []
next_args long_twice c = arg_long ∷ []
next_args bad c = []

unfoldable pub prepend : List Argument → Option (List Argument) → Option (List Argument)
prepend args none = none
prepend args (some more) = some (args ++ more)

-- The arguments of a whole format, or `none` if a conversion of it is malformed or unfinished.
unfoldable pub read_printf : Mode → Bytes → Option (List Argument)
unfolding next_mode next_args prepend
read_printf in_text [] = some []
read_printf percent [] = none
read_printf in_flags [] = none
read_printf in_width [] = none
read_printf dot [] = none
read_printf in_precision [] = none
read_printf starred [] = none
read_printf long_once [] = none
read_printf long_twice [] = none
read_printf bad [] = none
read_printf m (c ∷ s) = prepend (next_args m c) (read_printf (next_mode m c) s)

-- The text `s` takes the reader from `m` to `m'` with the arguments `args`.
pub record Reads (m : Mode) (s : Bytes) (args : List Argument) (m' : Mode) : Type 0 where
  pub reads : (rest : Bytes) → read_printf m (s ++ rest) ≡ prepend args (read_printf m' rest)

prepend-nil : (o : Option (List Argument)) → prepend [] o ≡ o
unfolding prepend
prepend-nil none = refl
prepend-nil (some more) = refl

prepend-append :
    (args more : List Argument) (o : Option (List Argument))
    → prepend (args ++ more) o ≡ prepend args (prepend more o)
unfolding prepend
prepend-append args more none = refl
prepend-append args more (some cs) = ap some (append_assoc args more cs)

pub Reads-nil : (m : Mode) → Reads m [] [] m
Reads-nil m = record { reads = λ rest. sym (prepend-nil (read_printf m rest)) }

pub Reads-append :
    {m m' m'' : Mode} {s t : Bytes} {args more : List Argument}
    → Reads m s args m'
    → Reads m' t more m''
    → Reads m (s ++ t) (args ++ more) m''
Reads-append {m} {m'} {m''} {s} {t} {args} {more} h k = record {
  reads = λ rest.
      ap (read_printf m) (append_assoc s t rest)
      ∙ h.reads (t ++ rest)
      ∙ ap (prepend args) (k.reads rest)
      ∙ sym (prepend-append args more (read_printf m'' rest));
}

-- One character.
pub Reads-char : (m : Mode) (c : ℕ) → Reads m (c ∷ []) (next_args m c) (next_mode m c)
unfolding read_printf
Reads-char in_text c = record { reads = λ rest. refl }
Reads-char percent c = record { reads = λ rest. refl }
Reads-char in_flags c = record { reads = λ rest. refl }
Reads-char in_width c = record { reads = λ rest. refl }
Reads-char dot c = record { reads = λ rest. refl }
Reads-char in_precision c = record { reads = λ rest. refl }
Reads-char starred c = record { reads = λ rest. refl }
Reads-char long_once c = record { reads = λ rest. refl }
Reads-char long_twice c = record { reads = λ rest. refl }
Reads-char bad c = record { reads = λ rest. refl }

-- A text that takes no argument and ends in one of several modes.
pub record Passes (m : Mode) (s : Bytes) (P : Mode → Type 0) : Type 0 where
  pub end : Mode
  pub reads : Reads m s [] end
  pub holds : P end

pub Passes-append :
    {m : Mode} {s t : Bytes} {P Q : Mode → Type 0}
    → Passes m s P
    → ((m' : Mode) → P m' → Passes m' t Q)
    → Passes m (s ++ t) Q
Passes-append {m} {s} {t} {P} {Q} h k =
    let next = k h.end h.holds in
    record { end = next.end; reads = Reads-append h.reads next.reads; holds = next.holds }

pub Passes-nil : (m : Mode) (P : Mode → Type 0) → P m → Passes m [] P
Passes-nil m P h = record { end = m; reads = Reads-nil m; holds = h }
