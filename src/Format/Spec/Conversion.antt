-- ===== src/Format/Spec/Conversion.antt =====
-- src/ast/PrintFormat.h and src/ast/PrintFormat.cpp: `PrintArgKind`, `defaultConversionFor` and
-- `specToPrintfConversion`, the printf conversion of one placeholder.
use my_llvm_c.Prelude.{
  ℕ, zero, suc, Bool, true, false, not, ◌&&◌, ◌||◌, Bytes, [], ◌∷◌, ◌++◌, Option, none, some, ltb,
  ◌==◌, if◌then◌else◌, codes,
}
use my_llvm_c.Format.Decimal.{to_string}
use my_llvm_c.Format.Spec.{PrintSpec}

pub data PrintArgKind : Type 0 where
  kind_int32 kind_int64 kind_uint32 kind_uint64 kind_char kind_float kind_c_string kind_pointer :
      PrintArgKind
  kind_bool kind_to_string kind_str : PrintArgKind

-- The conversion of `{}`.
unfoldable pub default_conversion : PrintArgKind → Bytes
default_conversion kind_int32 = codes "%d"
default_conversion kind_int64 = codes "%lld"
default_conversion kind_uint32 = codes "%u"
default_conversion kind_uint64 = codes "%llu"
default_conversion kind_char = codes "%c"
default_conversion kind_float = codes "%g"
default_conversion kind_c_string = codes "%s"
default_conversion kind_str = codes "%.*s"
default_conversion kind_pointer = codes "%p"
default_conversion kind_bool = codes "%s"
default_conversion kind_to_string = codes "%s"

unfoldable pub is_int : PrintArgKind → Bool
is_int kind_int32 = true
is_int kind_int64 = true
is_int kind_uint32 = true
is_int kind_uint64 = true
is_int _ = false

unfoldable pub is_64 : PrintArgKind → Bool
is_64 kind_int64 = true
is_64 kind_uint64 = true
is_64 _ = false

unfoldable pub is_float : PrintArgKind → Bool
is_float kind_float = true
is_float _ = false

unfoldable pub is_string_like : PrintArgKind → Bool
is_string_like kind_str = true
is_string_like kind_bool = true
is_string_like kind_to_string = true
is_string_like _ = false

-- The kinds that take no spec at all.
unfoldable pub takes_no_spec : PrintArgKind → Bool
takes_no_spec kind_char = true
takes_no_spec kind_c_string = true
takes_no_spec kind_pointer = true
takes_no_spec _ = false

-- `okType`
unfoldable pub ok_type : PrintArgKind → ℕ → Bool
unfolding is_int is_float is_string_like
ok_type k t =
    is_int k && (t == b'x' || t == b'X' || t == b'o' || t == b'b')
    || is_float k && (t == b'f' || t == b'e')
    || is_string_like k && t == b's'

-- Centering or a custom fill character: the caller renders the value and pads it.
unfoldable pub needs_render : PrintSpec → Bool
needs_render sp = sp.align == b'^' || not (sp.fill == b' ') && not (sp.fill == 0)

unfoldable pub is_some : Option ℕ → Bool
is_some none = false
is_some (some p) = true

unfoldable pub left_align : PrintArgKind → PrintSpec → Bool
unfolding is_string_like
left_align k sp = sp.align == b'<' || sp.align == 0 && ltb 0 sp.width && is_string_like k

-- The parts of the conversion behind its `%`.
unfoldable pub sign_flag : ℕ → Bytes
sign_flag s = if s == b'+' then codes "+" else if s == b' ' then codes " " else []

unfoldable pub flags : PrintArgKind → PrintSpec → Bytes
unfolding sign_flag left_align
flags k sp =
    sign_flag sp.sign
    ++ ((if sp.zero_fill then codes "0" else []) ++ (if left_align k sp then codes "-" else []))

unfoldable pub width_text : ℕ → Bytes
width_text zero = []
width_text (suc w) = to_string (suc w)

unfoldable pub precision_text : Option ℕ → Bytes
precision_text none = []
precision_text (some p) = b'.' ∷ to_string p

unfoldable pub int_tail : PrintArgKind → ℕ → Bytes
unfolding is_64
int_tail k t = if not (t == 0) then (if is_64 k then codes "ll" else []) ++ t ∷ [] else elim k [
  | kind_int32 ↦ codes "d"
  | kind_int64 ↦ codes "lld"
  | kind_uint32 ↦ codes "u"
  | _ ↦ codes "llu"
]

unfoldable pub tail : PrintArgKind → ℕ → Bytes
unfolding int_tail
tail kind_int32 t = int_tail kind_int32 t
tail kind_int64 t = int_tail kind_int64 t
tail kind_uint32 t = int_tail kind_uint32 t
tail kind_uint64 t = int_tail kind_uint64 t
tail kind_float t = if not (t == 0) then t ∷ [] else codes "f"
tail kind_str t = codes ".*s"
tail _ t = codes "s"

pub data Conversion : Type 0 where
  -- The conversion, and whether the caller renders the value.
  converted : Bytes → Bool → Conversion
  -- "format spec is not supported for this argument type"
  unsupported : Conversion

unfoldable pub spec_to_printf_conversion : PrintArgKind → PrintSpec → Conversion
spec_to_printf_conversion k sp =
    if takes_no_spec k
    then unsupported
    else if not (sp.type == 0) && not (ok_type k sp.type)
    then unsupported
    else if is_some sp.precision && not (is_float k)
    then unsupported
    else if sp.zero_fill && not (is_int k) && not (is_float k)
    then unsupported
    else if needs_render sp
    then converted (codes "%s") true
    else converted
        (b'%'
          ∷ (flags k sp
              ++ (width_text sp.width ++ (precision_text sp.precision ++ tail k sp.type))))
        false
