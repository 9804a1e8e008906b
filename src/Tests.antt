-- ===== src/Tests.antt =====
-- Runs of the models at concrete inputs, one module for each part of the program.
pub mod Sessions
pub mod Permissions
pub mod Tables
pub mod Records
pub mod Agents
pub mod Daemons
pub mod Restarts
pub mod Settings
