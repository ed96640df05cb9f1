-- ===== src/Logger.antt =====
-- base/logger: the stream that a log line is written to, the double buffering between the threads that
-- log and the thread that writes, and the log files.
pub mod Digits
pub mod Stream
pub mod Printed
pub mod Bounds
pub mod Async
pub mod AppendFile
pub mod LogFile
mod Tests
