-- ===== src/Job.antt =====
-- calrissian/job.py
pub mod Volumes
pub mod Pod
mod Tests
pub mod Runner
