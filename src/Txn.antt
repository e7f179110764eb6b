-- ===== src/Txn.antt =====
-- Transactions (src/transaction/*.cpp, include/duck/transaction/*.hpp, include/duck/common/rid.hpp).
pub mod Queue
pub mod Effects
mod Compatible
pub mod Locks
pub mod Invariant
mod Acquire
pub mod Reachable
pub mod Exclusion
pub mod Frame
pub mod TwoPhase
pub mod Grants
mod Sets
mod Examples
