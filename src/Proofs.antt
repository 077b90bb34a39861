-- ===== src/Proofs.antt =====
-- modules/proofs: records and the present-proof protocol (RFC 0037), proof requests and proofs.
pub mod Messages
pub mod Record
pub mod Service
pub mod Receiving
pub mod Verify
pub mod Request
pub mod Referents
pub mod Selection
pub mod Offered
pub mod Module
pub mod Accepted
pub mod Transitions
pub mod Protocol
pub mod Calls
pub mod Filter
pub mod Presenting
pub mod Verdict
