-- ===== src/Database.antt =====
-- The SQLite tables of migrations/20260923000001_initial_schema.sql, with the structs that their
-- rows are read into, and the world that a handler runs in. `Exec` holds the statements.
--
-- A time is the instant that it names, in nanoseconds: the RFC 3339 texts that chrono writes for
-- UTC compare as the instants do. `faults` is the environment's choice of which database and file
-- operations fail, in the order in which they are made. The random values come from functions of the
-- number of the draw: `uuid` for `Uuid::new_v4`, `sample` for a byte of `Alphanumeric`, `range n`
-- for `gen_range(0..n)`.
pub mod Exec
pub mod Schema
pub mod Frame
pub mod Run
pub mod Failure
use weiterleitung.Prelude.{ℕ, Bool, List, Option}
use weiterleitung.Text.{Text, Bytes}

pub record Mailbox : Type 0 where
  pub mailbox_id : Text
  pub email : Text
  pub is_default : Bool
  pub created_at : ℕ

pub record Alias : Type 0 where
  pub alias_id : Text
  pub address : Text
  pub mailbox_id : Text
  pub note : Option Text
  pub enabled : Bool
  pub forward_count : ℕ
  pub reply_count : ℕ
  pub blocked_count : ℕ
  pub created_at : ℕ
  pub last_used_at : Option ℕ

pub record AliasWithMailbox : Type 0 where
  pub alias : Alias
  pub mailbox_email : Text

pub record Contact : Type 0 where
  pub contact_id : Text
  pub alias_id : Text
  pub email : Text
  pub name : Option Text
  pub reverse_alias : Text
  pub created_at : ℕ

pub record ContactWithAlias : Type 0 where
  pub contact : Contact
  pub alias_address : Text
  pub alias_enabled : Bool
  pub mailbox_email : Text

-- The values of the column `status`.
pub data Status : Type 0 where
  pending sending delivered failed : Status

pub record QueuedMessage : Type 0 where
  pub message_id : Text
  pub direction : Text
  pub envelope_from : Text
  pub envelope_to : Text
  pub raw_path : Text
  pub alias_id : Option Text
  pub contact_id : Option Text
  pub subject : Option Text
  pub status : Status
  pub attempts : ℕ
  pub last_error : Option Text
  pub created_at : ℕ

-- A row of `outbox`: what `QueuedMessage` reads, and the two columns that it leaves out.
pub record OutboxRow : Type 0 where
  pub message : QueuedMessage
  pub next_attempt_at : ℕ
  pub delivered_at : Option ℕ

pub record User : Type 0 where
  pub user_id : Text
  pub username : Text
  pub password_hash : Text
  pub created_at : ℕ

pub record Db : Type 0 where
  pub users : List User
  pub mailboxes : List Mailbox
  pub aliases : List Alias
  pub contacts : List Contact
  pub outbox : List OutboxRow

pub record World : Type 0 where
  pub db : Db
  pub spool : List (Text × Bytes)
  pub clock : ℕ
  pub faults : List Bool
  pub uuid : ℕ → Text
  pub sample : ℕ → ℕ
  pub range : ℕ → ℕ → ℕ
  pub drawn : ℕ
