-- ===== src/Agent.antt =====
-- agent/: configuration, outbound messages, envelopes, dispatch.
pub mod Config
pub mod Context
pub mod Helpers
pub mod Envelope
pub mod Receiver
pub mod Authenticity
pub mod Sending
pub mod Assembly
pub mod Registration
pub mod Readiness
