-- ===== src/Tests.antt =====
-- The program run on small inputs, and each theorem at one of them.
mod Fixture
mod Address
mod Session
mod Router
mod Headers
mod Outbox
mod Conversation
mod People
mod Sending
mod Visitor
mod Web
mod System
