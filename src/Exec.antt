-- ===== src/Exec.antt =====
-- The executors of tasks/tasks and what they stand on.
pub mod Manual
pub mod BlockingQueue
pub mod Strand
