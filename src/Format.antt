-- ===== src/Format.antt =====
-- src/ast/PrintFormat.h and src/ast/PrintFormat.cpp: format strings of `print` and `format`.
pub mod Decimal
pub mod Spec
pub mod Build
mod Tests
