-- ===== src/Registry.antt =====
-- The Agent Registry (services/agent-registry/agent_registry): agents and their releases.
pub mod State
pub mod Publication
pub mod Lifecycle
pub mod Steps
pub mod Defaults
pub mod Images
pub mod Access
pub mod Resolution
pub mod Authorized
pub mod Recorded
pub mod Replays
mod Tests
mod AccessTests
