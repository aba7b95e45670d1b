-- ===== src/Http.antt =====
-- httpserver/main.cpp: the event loop, the thread that looks for timeouts, and their input and output.
pub mod State
pub mod Transfer
pub mod Handlers
pub mod Writing
pub mod Reading
pub mod Balance
pub mod Descriptors
pub mod Protocol
pub mod Refinement
pub mod Locking
pub mod Serving
pub mod Timeouts
pub mod Startup
