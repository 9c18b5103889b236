-- ===== src/Lib.antt =====
-- Weiterleitung is a mail server that forwards mail for aliases. A remote party writes to an alias;
-- the message is rewritten and queued for the mailbox behind the alias, with a reverse alias as its
-- sender; the mailbox answers to the reverse alias, and the answer is rewritten to come from the
-- alias. Three tasks share one SQLite database and one mail directory: the SMTP server, the worker
-- that delivers the outbox, and the web interface of the administrator.
--
-- Prelude and Text hold what the parts share: lists and tests over native numbers, a stable sort
-- for `ORDER BY`, and the methods of `str` and the UTF-8 decoder of Rust's standard library. Text is
-- a list of code points, and bytes are a list of numbers below 256. The lower case of text that is
-- not ASCII is a table of the standard library; it is the parameter `Unicode`.
--
-- The files and the code, with paths from the root of the repository:
--   Domain, Domain/EmailAddress   src/domain/mod.rs, src/domain/email_address.rs
--   Database                      migrations/20260923000001_initial_schema.sql: a table is a list of
--                                 rows. `Database.Exec` has the statements, as functions from a world
--                                 to a result and a world; `Database.Frame`, `Database.Run` and
--                                 `Database.Failure` take
--                                 handlers apart in proofs.
--   Mailbox, Alias, Contact       src/mailbox/mod.rs, src/alias/mod.rs, src/alias/generator.rs and
--                                 src/contact/mod.rs, one definition for each query or update
--   Configuration                 src/configuration.rs, the settings and the environments
--   Smtp/Session                  src/smtp/session.rs: `handle_session` is the loop over the lines of
--                                 the stream, `run_verb` the arms of its `match`, `read_data` the
--                                 reader of the payload, `MailHandler` the trait
--   Smtp/Router                   src/smtp/router.rs: `route`, `forward_to_mailbox` (`forward`),
--                                 `send_reply` (`reply`) and the two operations of `MailHandler`
--   Smtp/Rewrite                  src/smtp/rewrite.rs
--   Delivery/Queue                src/delivery/queue.rs
--   Delivery/Worker               src/delivery/worker.rs: `drain_outbox` is one pass over the outbox,
--                                 `run_delivery_worker` the first rounds of the loop
--   Delivery/Relay                src/delivery/relay.rs, the choice of hosts and of TLS; its child
--                                 `Build` has the checks at the start and the DKIM key; the relay
--                                 holds the signer that `transmit` uses
--   SessionState                  src/session_state.rs, over the interface of a session store
--   Authentication                src/authentication/password.rs, src/authentication/middleware.rs
--   WebTemplates                  src/web_templates.rs
--   Routes                        src/routes: a handler is a `Page`, over the session of the visitor
--                                 and the world. `remove_alias`, `remove_mailbox` and `leave_session`
--                                 are `delete_alias`, `delete_mailbox` and `log_out` of
--                                 src/routes/admin.rs
--   Startup                       src/startup.rs: `build_router` sends a request to its handler, and
--                                 `build_application` is `Application::build`
--   Consistency                   the invariant of the tables, over the three tasks
--   Tests                         the program on small inputs
--
-- A world is the tables, the mail directory, the clock, the random draws, and a list of faults by
-- which the environment lets each operation on the database or the file system fail. What was
-- written before a failure stays, unless a transaction undoes it. The operations of one handler run
-- without another task between them, and the clock stands still in a handler; the relay's answer to
-- an attempt may depend on the world.
--
-- Loops over lists are structural. The loop of a conversation has fuel, one more than the lines that
-- the client sends; every round reads a line, so that is enough, and `handle_session` is proved to
-- return a value. Counters are natural numbers; the program's are 64 bits wide and count messages.
--
-- The loop of the worker never ends: its model takes the number of rounds, and what happens to the
-- world between two of them.
--
-- What is third-party in the web interface is a parameter: the session store, Argon2, the template
-- engine, the format of dates, the hash of the assets and the socket. The router of axum and its
-- extractors are not modelled; a `Request` says which route was found, and with which form.
--
-- Not modelled: the SMTP client, the DNS resolver and the DKIM signer, which are third-party and
-- parameters of `Delivery/Relay`; sockets and tasks (src/smtp/server.rs, src/main.rs); the set-up of
-- the connection pool, of the session layer and of logging (src/startup.rs, src/telemetry.rs); the
-- reading of configuration files (`get_configuration`).
pub mod Prelude
pub mod Text
pub mod Domain
pub mod Database
pub mod Mailbox
pub mod Alias
pub mod Contact
pub mod Smtp
pub mod Configuration
pub mod Delivery
pub mod SessionState
pub mod Authentication
pub mod WebTemplates
pub mod Routes
pub mod Startup
pub mod Consistency
mod Tests
