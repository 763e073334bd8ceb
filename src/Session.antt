-- ===== src/Session.antt =====
-- Adapters/Inbound/Tcp/Session: a connection with one client (TCPSession.hpp, TCPSession.cpp and the
-- headers below Common). All of it runs on the session's strand, one function after another.
pub mod State
pub mod Base
pub mod Write
pub mod Send
pub mod Read
pub mod Heartbeat
pub mod Steps
pub mod Jitter
pub mod Batch
pub mod Longest
pub mod Invariant
pub mod Admission
pub mod Requests
pub mod Goes
pub mod Keeps
pub mod Beats
pub mod Queue
pub mod Reached
pub mod Stream
pub mod Waking
pub mod Alive
pub mod Clock
pub mod Timed
pub mod Closing
pub mod Handled
pub mod Stuck
pub mod Flush
pub mod Accepting
pub mod Frames
pub mod Given
pub mod Torn
pub mod Framing
pub mod Loop
pub mod Rounds
pub mod Passes
pub mod Conversation
pub mod Placed
pub mod Answered
pub mod Conversed
pub mod Chunks
pub mod Wire
pub mod Silence
mod Runs
mod StuckRuns
mod MoreRuns
mod LoopRuns
mod TimedRuns
