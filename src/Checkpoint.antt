-- ===== src/Checkpoint.antt =====
-- The Checkpoint API (services/checkpoint-api/checkpoint_api): the store's transactions, the HTTP
-- handlers in front of them, and their properties.
pub mod Store
pub mod Api
pub mod Lease
pub mod Versions
pub mod Commit
pub mod Payload
mod Tests
