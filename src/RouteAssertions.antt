-- ===== src/RouteAssertions.antt =====
-- workers/secrets-worker: route assertions, from their issue to the claim of their nonces. Issue, Verify and
-- Replay follow the source files, with what the first two read of their requests in Inputs and
-- VerifyInput; Outcome and Domains hold what they share.
pub mod Outcome
pub mod Domains
pub mod Inputs
pub mod Issue
pub mod VerifyInput
pub mod Verify
pub mod Journey
pub mod Replay
pub mod Samples
