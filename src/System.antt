-- ===== src/System.antt =====
-- system_function/main.cpp: `mysystem`, `sigchld_handler`, and the loop of `main`.
pub mod Command
pub mod Kernel
pub mod Handler
pub mod Waiting
pub mod Stolen
