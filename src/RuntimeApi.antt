-- ===== src/RuntimeApi.antt =====
-- The Agent Runtime API (services/agent-runtime-api/agent_runtime_api): the channel of an attempt to the
-- platform.
pub mod State
pub mod Events
pub mod Accept
pub mod Tools
pub mod Effects
pub mod Steps
pub mod Numbers
pub mod Numbered
pub mod Stale
pub mod Redelivery
pub mod Invocations
pub mod Connect
pub mod Answers
pub mod Rounds
pub mod Failures
mod Tests
