-- ===== src/Tests.antt =====
-- The theorems at concrete inputs.
pub mod Tables
pub mod Connections
pub mod Signature
pub mod Storage
pub mod Routing
pub mod Credentials
pub mod Proofs
pub mod Requests
pub mod Modules
pub mod Mediator
pub mod Handshake
pub mod Wallet
pub mod Ledger
pub mod Agent
pub mod BasicMessages
pub mod Invitations
pub mod Documents
pub mod Filters
pub mod Assembly
pub mod Exchange
pub mod Presenting
pub mod Samples
pub mod Utilities
pub mod Registration
