-- ===== src/Executor.antt =====
-- calrissian/executor.py
pub mod Resources
pub mod JobQueue
pub mod Effects
pub mod Pool
pub mod Loop
pub mod Select
mod Tests
mod Rounding
pub mod Jobs
pub mod Invariant
pub mod Progress
