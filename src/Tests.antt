-- ===== src/Tests.antt =====
-- The theorems at concrete inputs: the data, and a child for the tables and one for the rest.
pub mod Data
pub mod Tables
pub mod Flow
mod Runs
mod Process
mod Service
