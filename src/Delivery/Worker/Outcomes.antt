-- ===== src/Delivery/Worker/Outcomes.antt =====
-- What a pass of the worker makes of each message.
pub mod Turns
use weiterleitung.Prelude.{ℕ, ◌≡◌, ◌≤◌, ◌<◌, Bool, false, List, any, In, some, Result, ok, err, ◌⊎◌}
use weiterleitung.Text.{Text}
use weiterleitung.Database.{World, OutboxRow, Status, pending, sending, delivered, failed}
use weiterleitung.Database.Exec.{Exec, attempt}
use weiterleitung.Delivery.Queue.{set_delivered, failure_update}
use weiterleitung.Delivery.Worker.{Sender}
use Turns.{Outcome}
use weiterleitung.Delivery.Worker.Untouched.{any-In}

-- What `sent` writes into the row of its message, by the relay's answer.
abbrev judged : ℕ → ℕ → Result Text (Unit {0}) → ℕ → OutboxRow → OutboxRow
judged attempts max (ok t) time x = set_delivered time x
judged attempts max (err e) time x = failure_update attempts max e time x

module _ (sender : Sender) (max : ℕ) (before : World) (r : OutboxRow) where
  -- The rows with the identifier of `r` have an outcome of it.
  unfoldable Judged : List OutboxRow → Type 0
  Judged rows =
      (x : OutboxRow)
      → In x rows
      → x.message.message_id ≡ r.message.message_id
      → Outcome sender max before r x

  abbrev Judges : World → World → Type 0
  Judges w v = Judged w.db.outbox → Judged v.db.outbox

  -- An update that keeps identifiers, and that gives `r` an outcome where it is the row.
  record Judging (id : Text) (f : OutboxRow → OutboxRow) : Type 0 where
    same_id : (x : OutboxRow) → (f x).message.message_id ≡ x.message.message_id
    outcome : (x : OutboxRow) → r.message.message_id ≡ id → Outcome sender max before r (f x)
