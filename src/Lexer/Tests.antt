-- ===== src/Lexer/Tests.antt =====
-- src/frontend/Lexer.cpp: runs of the lexer on short texts.
use my_llvm_c.Prelude.{◌≡◌, refl, false, Bytes, codes}
use my_llvm_c.Lexer.Number.{accumulate, add_digit, digit_value, is_digit_for_radix}
use my_llvm_c.Lexer.Scan.{lex}
use my_llvm_c.Lexer.Cover.{Covers}
use my_llvm_c.Lexer.Tokens.{lex-Covers}

abbrev sum_text : Bytes
sum_text = codes "a /* c */ += 0x1f;"

lex-Covers_example : Covers sum_text 0 (lex (codes "a.cm") sum_text).0
lex-Covers_example = lex-Covers (codes "a.cm") sum_text

value_test : accumulate 16 (codes "1f_ffu") (0, false) ≡ (8191, false)
unfolding accumulate add_digit digit_value is_digit_for_radix
value_test = refl
