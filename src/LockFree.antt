-- ===== src/LockFree.antt =====
-- The lock-free structures of tasks/lockfree.
pub mod StampedPtr
pub mod StealQueue
pub mod SharedPtr
pub mod SplitStack
