-- ===== src/Storage.antt =====
-- Storage (src/storage/disk_manager.cpp, include/duck/storage/disk_manager.hpp).
pub mod Disk
pub mod Endless
mod Examples
