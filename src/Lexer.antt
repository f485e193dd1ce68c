-- ===== src/Lexer.antt =====
-- src/frontend/Lexer.cpp.
pub mod State
pub mod Trivia
pub mod Quoted
pub mod Words
pub mod Number
pub mod Operator
pub mod Scan
pub mod Moves
pub mod Whole
pub mod WholeNumber
pub mod ScanShape
pub mod Position
pub mod Cover
pub mod Tokens
pub mod Value
pub mod Stream
mod Tests
