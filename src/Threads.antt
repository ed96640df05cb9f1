-- ===== src/Threads.antt =====
-- base/thread: conditions with a time limit, the thread pool and the latch.
pub mod Condition
pub mod Latch
pub mod Pool
mod Tests
