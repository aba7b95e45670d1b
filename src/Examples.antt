-- ===== src/Examples.antt =====
-- The theorems at concrete inputs that meet their hypotheses, and runs of the definitions.
mod Nets
mod Messages
mod Servers
mod Webs
mod Senders
mod Talks
mod Processes
mod Objects
mod Files
mod Signals
mod Members
mod Switching
mod Returning
mod Small
mod Holding
