-- ===== src/Fibers.antt =====
-- The fibers of tasks/fibers.
pub mod Mutex
pub mod Event
pub mod WaitGroup
