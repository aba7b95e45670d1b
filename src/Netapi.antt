-- ===== src/Netapi.antt =====
-- socket/netapi/netapi.cpp: the class `netapi`. State is the object and what the kernel answers,
-- Receive and Send the methods of the two directions; the other modules prove what they do.
pub mod State
pub mod Startup
pub mod Receive
pub mod Send
pub mod Handler
pub mod Wire
pub mod Widths
pub mod Cut
pub mod LongName
pub mod Delivery
pub mod Table
pub mod Registry
pub mod Relay
pub mod Overread
pub mod Errors
