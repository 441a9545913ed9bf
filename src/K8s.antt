-- ===== src/K8s.antt =====
-- calrissian/k8s.py
pub mod Effects
pub mod Monitor
pub mod Client
pub mod Config
pub mod Deletion
pub mod Calls
pub mod Submission
pub mod Completion
mod Tests
