-- ===== src/Coro.antt =====
-- src/net/coro: the coroutine experiment, an epoll loop that resumes coroutines and an echo service.
pub mod Control
pub mod Rounds
pub mod Echo
mod Examples
