-- ===== src/Locks.antt =====
-- The locks of tasks/mutex.
pub mod SpinLock
pub mod FutexMutex
pub mod TicketLock
pub mod QueueSpinLock
pub mod Dining
pub mod TrickyLock
