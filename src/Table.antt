-- ===== src/Table.antt =====
-- Tables (src/table/*.cpp, include/duck/table/*.hpp).
pub mod Page
