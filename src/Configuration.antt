-- ===== src/Configuration.antt =====
-- The Configuration Service (services/configuration-service/configuration_service): revisions of
-- settings and their layering into an effective configuration.
pub mod Documents
pub mod Layers
pub mod Bounds
pub mod Precedence
pub mod Revisions
pub mod Resolve
pub mod Effective
pub mod Repeats
mod Tests
