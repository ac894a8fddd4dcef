-- ===== src/Runner.antt =====
-- The Agent Runner (services/agent-runner/agent_runner): runs, their attempts and their completion,
-- as transactions over its database.
pub mod State
pub mod Admission
pub mod Attempts
pub mod Cancellation
pub mod Suspension
pub mod Loss
pub mod Completion
pub mod Effects
pub mod Converging
pub mod Steps
pub mod Terminal
pub mod Capacity
pub mod Published
pub mod Retries
pub mod Bounded
pub mod AttemptBound
pub mod Dedup
pub mod Confirmed
pub mod Repair
pub mod Races
mod Tests
