-- ===== src/Parser.antt =====
-- src/frontend/Parser.cpp.
pub mod Infix
pub mod Levels
pub mod Climb
pub mod Grammar
pub mod Sound
pub mod Finishes
mod Tests
