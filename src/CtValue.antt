-- ===== src/CtValue.antt =====
-- src/ast/CtValue.h and src/ast/CtValue.cpp: the values of the compile-time evaluator.
pub mod Word
pub mod IntType
pub mod Value
pub mod Binary
pub mod Wrap
pub mod Arithmetic
pub mod Compare
mod Tests
