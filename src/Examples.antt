-- ===== src/Examples.antt =====
-- Concrete runs of the theorems.
pub mod Data
mod Dispatches
mod Retries
mod Histories
mod Polls
mod Events
mod Removals
mod Files
mod Outputs
