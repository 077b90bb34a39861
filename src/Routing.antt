-- ===== src/Routing.antt =====
-- modules/routing: the mediator's routing table, message pickup, the agent's mediator.
pub mod Messages
pub mod Provider
pub mod Pickup
pub mod Ownership
pub mod Queues
pub mod Provisioning
pub mod Module
pub mod Inbound
