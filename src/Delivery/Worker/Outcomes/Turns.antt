-- ===== src/Delivery/Worker/Outcomes/Turns.antt =====
-- The messages that a pass of the worker takes in turn, and what it can make of each.
use weiterleitung.Prelude.{ℕ, ◌≡◌, ◌+◌, ◌≤◌, ◌<◌, List, [], ◌∷◌, some, ok, err, ◌⊎◌}
use weiterleitung.Text.{Text, Bytes}
use weiterleitung.Database.{World, OutboxRow, QueuedMessage, pending, delivered, failed}
use weiterleitung.Delivery.Queue.{set_sending, claim_due}
use weiterleitung.Delivery.Worker.{Sender, batch_size, read_spool, deliver}

-- The message `m` is one of the batch that is delivered from the world `w` on, and `u` is the world
-- when its turn comes.
unfoldable pub Turn : Sender → ℕ → List QueuedMessage → World → QueuedMessage → World → Type 0
Turn sender max [] w m u = ⊥
Turn sender max (n ∷ ms) w m u =
    ((n ≡ m) × (u ≡ w)) ⊎ Turn sender max ms (deliver sender max n w).1 m u

-- The same in a pass from `w`: `claim_due` has returned the batch.
pub record InPass (sender : Sender) (max : ℕ) (w : World) (m : QueuedMessage) (u : World)
    : Type 0 where
  pub batch : List QueuedMessage
  pub start : World
  pub was_claimed : claim_due batch_size w ≡ (ok batch, start)
  pub turn : Turn sender max batch start m u

-- What a pass made of the row `r`: nothing; or it was claimed and is still being sent, since a
-- statement failed; or, when its turn came, the relay took its message; or the relay refused it,
-- and it waits with one attempt more while the maximum is not reached, and has failed if it is; or
-- its file was not read, and it has failed with more attempts than the maximum.
pub data Outcome (sender : Sender) (max : ℕ) (before : World) (r x : OutboxRow) : Type 0 where
  kept : x ≡ r → Outcome sender max before r x
  still_sending : x ≡ set_sending r → Outcome sender max before r x
  taken :
      (w u : World) (raw : Bytes)
      → InPass sender max before r.message w
      → read_spool r.message.raw_path w ≡ (ok raw, u)
      → sender u r.message.envelope_from r.message.envelope_to raw ≡ ok tt
      → x.message.status ≡ delivered
      → Outcome sender max before r x
  waiting :
      (w u : World) (raw : Bytes) (e : Text)
      → InPass sender max before r.message w
      → read_spool r.message.raw_path w ≡ (ok raw, u)
      → sender u r.message.envelope_from r.message.envelope_to raw ≡ err e
      → x.message.status ≡ pending
      → x.message.attempts ≡ r.message.attempts + 1
      → x.message.attempts < max
      → x.message.last_error ≡ some e
      → Outcome sender max before r x
  used_up :
      (w u : World) (raw : Bytes) (e : Text)
      → InPass sender max before r.message w
      → read_spool r.message.raw_path w ≡ (ok raw, u)
      → sender u r.message.envelope_from r.message.envelope_to raw ≡ err e
      → x.message.status ≡ failed
      → x.message.attempts ≡ r.message.attempts + 1
      → max ≤ x.message.attempts
      → x.message.last_error ≡ some e
      → Outcome sender max before r x
  unreadable :
      (w : World) (e : Text)
      → InPass sender max before r.message w
      → (read_spool r.message.raw_path w).0 ≡ err e
      → x.message.status ≡ failed
      → x.message.attempts ≡ max + 1
      → Outcome sender max before r x
