-- ===== src/Tests.antt =====
-- Runs on concrete data, and the theorems at concrete arguments.
pub mod Queues
pub mod Queries
pub mod Closings
pub mod Conversations
pub mod Pools
pub mod Finders
pub mod Games
pub mod Clinics
pub mod Polynomials
pub mod Rosters
pub mod Sevens
pub mod Signals
pub mod Homeworks
pub mod CommandLines
