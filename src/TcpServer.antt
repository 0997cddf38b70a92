-- ===== src/TcpServer.antt =====
-- src/net/Acceptor.cpp, EventLoopThreadPool.cpp and tcpServer.cpp: the listening socket, the choice of
-- a loop for a connection, and what the loops do with it.
pub mod Acceptor
pub mod Pool
pub mod SubLoop
pub mod Start
mod Examples
