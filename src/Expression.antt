-- ===== src/Expression.antt =====
-- Expressions (src/expression/*.cpp, include/duck/expression/*.hpp, include/duck/record/record.hpp).
pub mod Compare
pub mod Evaluate
pub mod Typing
pub mod Logic
pub mod Soundness
pub mod Integral
mod Examples
