-- ===== src/Tuple.antt =====
-- Rows (src/tuple/*.cpp, include/duck/tuple/*.hpp).
pub mod Value
pub mod Size
pub mod Schema
pub mod Row
mod Examples
