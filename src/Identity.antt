-- ===== src/Identity.antt =====
-- Identity Delegation (services/identity-delegation/identity_delegation): what a user lets a run do
-- on their behalf, the tokens for it and the checks of the gateway.
pub mod Claims
pub mod Tokens
pub mod Grants
pub mod Policy
pub mod Service
pub mod Exchange
pub mod Encoding
pub mod RoundTrip
pub mod Scopes
pub mod Limits
pub mod Revoked
pub mod Authorized
pub mod Retry
pub mod SampleCodec
mod Tests
