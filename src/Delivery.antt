-- ===== src/Delivery.antt =====
-- src/delivery: the outbound queue, the relay that hands messages on, and the worker that drains
-- the queue through it.
pub mod Queue
pub mod Relay
pub mod Worker
