-- ===== src/Server.antt =====
-- Adapters/Inbound/Tcp/Base/Server.hpp and Server/TCPServer.cpp: the acceptor, the set of sessions and the
-- handlers of a session. Its functions run on the server's strand, one after another, except that
-- `Stop` can be called at any time.
pub mod Acceptor
pub mod Handlers
pub mod Tcp
pub mod Serving
pub mod Answering
pub mod Served
pub mod Steps
pub mod Stopping
pub mod Accepting
pub mod System
pub mod Paired
pub mod Together
mod Runs
mod SystemRuns
