-- ===== src/Log.antt =====
-- src/log: the buffers and operators of a log line, the lines, the asynchronous writer and its files.
pub mod FixedBuffer
pub mod AsyncLogging
pub mod Stream
pub mod Line
pub mod FileApp
pub mod LogFile
pub mod Backend
pub mod Retry
mod Examples
