-- ===== src/Threading.antt =====
-- api/threading_ctrl.cpp, and its use in socket/sdr/my_sdr.cpp and socket/rcvr/my_rcvr.cpp.
pub mod Control
pub mod Sender
pub mod Tasks
pub mod Queue
pub mod File
pub mod Copy
pub mod Messages
pub mod Limit
pub mod Receiver
pub mod Bound
pub mod Transfer
pub mod Peek
pub mod Startup
