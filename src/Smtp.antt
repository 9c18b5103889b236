-- ===== src/Smtp.antt =====
-- src/smtp: the inbound server. `Session` holds the protocol loop and the interface of the mail
-- handler, `Router` the handler that the server runs.
pub mod Rewrite
pub mod Session
pub mod Router
