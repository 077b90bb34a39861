-- ===== src/Samples.antt =====
-- samples/mediator.ts: a mediator over HTTP, built from the framework.
pub mod Mediator
pub mod Delivery
pub mod Links
