-- ===== src/Credentials.antt =====
-- modules/credentials: records, values and the issue-credential protocol (RFC 0036).
pub mod Messages
pub mod Record
pub mod Values
pub mod Service
pub mod Receiving
pub mod Transitions
pub mod Protocol
pub mod Calls
pub mod Preview
pub mod Threads
pub mod Module
pub mod Undelivered
pub mod Exchange
pub mod Issuance
