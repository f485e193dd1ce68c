-- ===== src/Format/Tests.antt =====
-- src/ast/PrintFormat.cpp: runs of the format functions on short texts.
use my_llvm_c.Prelude.{◌≡◌, ◌≢◌, refl, true, false, none, some, List, [], ◌∷◌, codes, arith, inr}
use my_llvm_c.Format.Decimal.{is_digit, digits_value, stoi}
use my_llvm_c.Format.Spec.{
  PrintSpec, ok, is_align, begins_with_fill, parse_align, is_sign, parse_sign, parse_zero,
  take_digits, run_value, is_type, precision_large, check_spec, parse_type, parse_tail,
  parse_after_precision, parse_digits_of_precision, parse_precision, parse_after_width,
  parse_print_spec,
}
use my_llvm_c.Format.Spec.Valid.{IsValid, is_fill, parse_print_spec-IsValid}
use my_llvm_c.Format.Spec.Show.{show_spec}
use my_llvm_c.Format.Spec.RoundTrip.{parse_print_spec-show_spec}
use my_llvm_c.Format.Spec.Conversion.{
  kind_int32, kind_str, default_conversion, spec_to_printf_conversion, takes_no_spec, ok_type,
  is_int, is_64, is_float, is_string_like, needs_render, is_some, left_align, sign_flag, flags,
  width_text, precision_text, int_tail, tail,
}
use my_llvm_c.Format.Build.{
  built, stuck, build_print_format, build_fuel, round, resume, emit, open_brace, close_brace,
  read_spec, until_brace, close_spec, fill_slot, place, placeholder, parsed_placeholder, convert,
  finish, finish_kinds,
}
use my_llvm_c.Format.Build.Pieces.{
  Piece, text, hole, show_pieces, render, build_print_format-show_pieces,
}
use my_llvm_c.Format.Build.Finishes.{build_print_format-finishes}

-- `{:*>+08.3f}` without the fill zero: right alignment, eight wide, three digits behind the point.
abbrev padded : PrintSpec
padded = record {
  fill = b'*';
  align = b'>';
  sign = b'+';
  zero_fill = false;
  width = 8;
  precision = some 3;
  type = b'f';
}

padded-IsValid : IsValid padded
unfolding is_align is_fill is_sign is_type is_digit
padded-IsValid = record {
  shaped = record { align = inr (refl, refl); sign = inr refl; type = inr refl };
  checked = record {
    width = omega arith;
    precision = omega arith;
    zero_align = λ z. absurd (cc);
    align_width = λ a. omega arith;
  };
}

parse_print_spec-show_spec_example : parse_print_spec (show_spec padded) ≡ ok padded
parse_print_spec-show_spec_example = parse_print_spec-show_spec padded padded-IsValid

padded-parse : parse_print_spec (codes "*>+8.3f") ≡ ok padded
unfolding parse_print_spec parse_align is_align begins_with_fill is_digit parse_sign is_sign
    parse_zero take_digits run_value stoi digits_value parse_after_width parse_precision
    parse_digits_of_precision parse_after_precision parse_tail parse_type is_type check_spec
    precision_large
padded-parse = refl

parse_print_spec-IsValid_example : IsValid padded
parse_print_spec-IsValid_example = parse_print_spec-IsValid (codes "*>+8.3f") padded padded-parse

-- `println("{{x}} = {:x}, {}", n, s)` with a 32-bit integer and a `str`.
abbrev pieces : List Piece
pieces = text b'{' ∷ text b'x' ∷ text b'}' ∷ text b'=' ∷ hole (codes "x") ∷ text b' ' ∷ hole [] ∷ []

build_print_format-show_pieces_example :
    build_print_format (show_pieces pieces) (kind_int32 ∷ kind_str ∷ []) true
    ≡ render true pieces (kind_int32 ∷ kind_str ∷ [])
build_print_format-show_pieces_example =
    build_print_format-show_pieces pieces (kind_int32 ∷ kind_str ∷ []) true
      (tt, (tt, (tt, (tt, ((refl, tt), (tt, (tt, tt)))))))

abbrev hex_spec : PrintSpec
hex_spec = record {
  fill = b' ';
  align = 0;
  sign = 0;
  zero_fill = false;
  width = 0;
  precision = none;
  type = b'x';
}

build_test :
    build_print_format (codes "{{{:x}% {}") (kind_int32 ∷ kind_str ∷ []) false
    ≡ built (codes "{%x%% %.*s") (
        hex_spec
        ∷ record {
          fill = b' ';
          align = 0;
          sign = 0;
          zero_fill = false;
          width = 0;
          precision = none;
          type = 0;
        }
        ∷ [])
unfolding build_print_format build_fuel round resume emit open_brace close_brace read_spec
    until_brace close_spec fill_slot place placeholder parsed_placeholder convert finish
    finish_kinds default_conversion spec_to_printf_conversion takes_no_spec ok_type is_int is_64
    is_float is_string_like needs_render is_some left_align sign_flag flags width_text
    precision_text int_tail tail parse_print_spec parse_align is_align begins_with_fill is_digit
    parse_sign is_sign parse_zero take_digits run_value parse_after_width parse_precision parse_tail
    parse_type is_type check_spec precision_large
build_test = refl

build_print_format-finishes_example :
    build_print_format (codes "{:x") (kind_int32 ∷ []) false ≢ stuck
build_print_format-finishes_example =
    build_print_format-finishes (codes "{:x") (kind_int32 ∷ []) false
