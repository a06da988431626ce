-- ===== src/Tests.antt =====
-- Runs of the theorems at concrete inputs, by the part of the program that they are about.
pub mod Session
pub mod Requests
pub mod Machines
pub mod OneHost
pub mod Files
pub mod Commands
pub mod Catalogs
pub mod Starts
pub mod Isolated
