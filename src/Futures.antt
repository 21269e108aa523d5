-- ===== src/Futures.antt =====
-- The futures of tasks/futures.
pub mod Result
pub mod SharedState
pub mod StdFuture
pub mod RefCounter
pub mod First
pub mod Both
