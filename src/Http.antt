-- ===== src/Http.antt =====
-- src/http and src/httpServer.cpp: requests, their parser, and the server's answers.
pub mod Request
pub mod Parser
pub mod Respond
pub mod Server
