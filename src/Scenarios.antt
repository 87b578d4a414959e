-- ===== src/Scenarios.antt =====
-- Runs of the model on concrete data, and the theorems at concrete arguments.
pub mod Data
mod Sessions
mod Titles
mod Bots
mod Segments
mod Rounds
mod Events
mod Accounts
mod Diagnostics
mod Trees
