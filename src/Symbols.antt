-- ===== src/Symbols.antt =====
-- src/ast/Symbol.h and src/ast/Symbol.cpp: symbols, overload sets and scopes.
mod Tests
pub mod Overload
pub mod Scope
use my_llvm_c.Prelude.{ℕ, Option, Bytes}
use my_llvm_c.Types.{AstType}

-- The members of `Symbol` that overload resolution and scopes read. The number of default arguments is that of the
-- declaration, which may be absent.
pub record Symbol : Type 0 where
  pub name : Bytes
  pub type : AstType
  pub default_arg_count : Option ℕ
