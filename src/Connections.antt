-- ===== src/Connections.antt =====
-- modules/connections: DID documents, connection records, the connection protocol (RFC 0160).
pub mod Did
pub mod Record
pub mod Messages
pub mod Service
pub mod Handlers
pub mod Protocol
pub mod Calls
pub mod Outcomes
pub mod Module
pub mod Waiting
pub mod Requesting
pub mod Handshake
pub mod Invitation
pub mod Documents
