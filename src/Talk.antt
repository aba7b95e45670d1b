-- ===== src/Talk.antt =====
-- socket/talk/chatchit/client.cpp and socket/talk/chitchat/client.cpp: one program, with the two ports
-- exchanged.
pub mod Start
pub mod Sending
pub mod Receiving
pub mod Dialogue
pub mod Programs
