-- ===== src/Mangle/Tests.antt =====
-- Runs of the mangling.
use my_llvm_c.Prelude.{◌≡◌, refl, true, false, [], codes}
use my_llvm_c.Types.{
  AstTypes, nil, cons, basic, pointer, kind_char, kind_float16, kind_float128, plain, int32,
}
use my_llvm_c.Mangle.{LinkageNames, mangle_function}

abbrev no_names : LinkageNames
no_names = record { c_names = []; namespace_c_names = [] }

abbrev a_char_pointer : AstTypes
a_char_pointer = cons (pointer plain (basic plain kind_char)) (cons int32 nil)

abbrev a_const_pointer : AstTypes
a_const_pointer =
    cons (pointer (record { is_atomic = false; is_const = true }) (basic plain kind_char))
      (cons int32 nil)

mangled : mangle_function no_names (codes "put") a_char_pointer ≡ codes "put_charptr_int32"
unfolding mangle_function
mangled = refl

-- Functions of `float16` and of `float128` share a name.
shared_name :
    mangle_function no_names (codes "f") (cons (basic plain kind_float16) nil)
    ≡ mangle_function no_names (codes "f") (cons (basic plain kind_float128) nil)
unfolding mangle_function
shared_name = refl
