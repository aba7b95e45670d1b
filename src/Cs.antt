-- ===== src/Cs.antt =====
-- cs/send/main.cpp and cs/recv/main.cpp: a client that sends 10000 messages, and its server.
pub mod Sending
pub mod Receiving
pub mod Counts
