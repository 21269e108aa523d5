-- ===== src/Cond.antt =====
-- The synchronisation primitives of tasks/cond.
pub mod Semaphore
pub mod BoundedQueue
pub mod WaitGroup
pub mod Barrier
