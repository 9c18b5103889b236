-- ===== src/Delivery/Queue.antt =====
-- src/delivery/queue.rs: the outbox table, and the raw messages in the mail directory.
pub mod Enqueue
pub mod Claim
pub mod Retry
use weiterleitung.Prelude.{
  ℕ, ◌+◌, ◌*◌, ◌^◌, min, Bool, true, false, not, ◌&&◌, leb, if◌then◌else◌, List, [], ◌∷◌, ◌++◌, map,
  any, keep, take, length, sort_by, Option, none, some, Result, ok, err,
}
use weiterleitung.Text.{Text, Bytes, lit, eq_text}
use weiterleitung.Domain.{Direction, as_str}
use weiterleitung.Database.{
  Db, QueuedMessage, OutboxRow, Status, pending, sending, delivered, failed,
}
use weiterleitung.Database.Schema.{
  unique_violation, foreign_key_violation, linked, has_alias_id, has_contact_id,
}
use weiterleitung.Database.Exec.{
  Exec, pure, gets, ◌>>=◌, ◌>>◌, map_err, attempt, select, execute, transaction, now, new_uuid,
}

pub record NewOutboundMessage : Type 0 where
  pub direction : Direction
  pub envelope_from : Text
  pub envelope_to : Text
  pub raw : Bytes
  pub alias_id : Option Text
  pub contact_id : Option Text
  pub subject : Option Text

-- `fs::write`: a file of that name is replaced. The newest file stands first.
unfoldable pub write_file : Text → Bytes → Exec Text (Unit {0})
write_file path raw = do attempt; λ w. (ok tt, record w { spool = (path, raw) ∷ w.spool })

-- `mail_dir.join("{message_id}.eml")`.
abbrev pub spool_path : Text → Text → Text
spool_path mail_dir message_id = mail_dir ++ (lit "/" ++ (message_id ++ lit ".eml"))

unfoldable pub insert_row : OutboxRow → Db → Result Text Db
unfolding any eq_text linked
insert_row r db =
    if any (λ k. eq_text k.message.message_id r.message.message_id) db.outbox
    then err unique_violation
    else if not (
        linked (has_alias_id db) r.message.alias_id
        && linked (has_contact_id db) r.message.contact_id)
    then err foreign_key_violation
    else ok (record db { outbox = db.outbox ++ (r ∷ []) })

-- The row that `enqueue` inserts.
abbrev pub new_row : NewOutboundMessage → Text → Text → ℕ → OutboxRow
new_row m message_id raw_path time = record {
  message = record {
    message_id = message_id;
    direction = as_str m.direction;
    envelope_from = m.envelope_from;
    envelope_to = m.envelope_to;
    raw_path = raw_path;
    alias_id = m.alias_id;
    contact_id = m.contact_id;
    subject = m.subject;
    status = pending;
    attempts = 0;
    last_error = none;
    created_at = time;
  };
  next_attempt_at = time;
  delivered_at = none;
}

-- The first `attempt` is `create_dir_all`.
unfoldable pub enqueue : Text → NewOutboundMessage → Exec Text Text
enqueue mail_dir m = do
  map_err (λ e. lit "Failed to create the mail directory " ++ mail_dir) attempt
  message_id ← new_uuid
  let raw_path = spool_path mail_dir message_id
  map_err (λ e. lit "Failed to write the raw message to " ++ raw_path) (write_file raw_path m.raw)
  time ← now
  map_err (λ e. lit "Failed to enqueue the outbound message")
      (execute (insert_row (new_row m message_id raw_path time)))
  pure message_id

unfoldable pub is_pending : Status → Bool
is_pending pending = true
is_pending _ = false

unfoldable pub is_sending : Status → Bool
is_sending sending = true
is_sending _ = false

-- `WHERE status = 'pending' AND next_attempt_at <= ?`.
unfoldable pub is_due : ℕ → OutboxRow → Bool
unfolding is_pending
is_due time r = is_pending r.message.status && leb r.next_attempt_at time

abbrev pub earlier : OutboxRow → OutboxRow → Bool
earlier a b = leb a.next_attempt_at b.next_attempt_at

-- The rows that the `SELECT` of `claim_due` returns.
unfoldable pub due_rows : ℕ → ℕ → List OutboxRow → List OutboxRow
due_rows time limit rows = take limit (sort_by earlier (keep (is_due time) rows))

abbrev pub messages_of : List OutboxRow → List QueuedMessage
messages_of = map (λ r. r.message)

abbrev pub has_id : Text → OutboxRow → Bool
has_id message_id r = eq_text r.message.message_id message_id

-- `UPDATE outbox SET … WHERE message_id = ?`.
unfoldable pub update_message : Text → (OutboxRow → OutboxRow) → List OutboxRow → List OutboxRow
update_message message_id f [] = []
update_message message_id f (r ∷ rest) =
    (if has_id message_id r then f r else r) ∷ update_message message_id f rest

abbrev pub update_row : Text → (OutboxRow → OutboxRow) → Db → Result Text Db
update_row message_id f db = ok (record db { outbox = update_message message_id f db.outbox })

abbrev pub set_sending : OutboxRow → OutboxRow
set_sending r = record r { message = record r.message { status = sending } }

-- The loop over the claimed messages.
unfoldable pub mark_sending : List QueuedMessage → Exec Text (Unit {0})
mark_sending [] = pure tt
mark_sending (m ∷ ms) = do execute (update_row m.message_id set_sending); mark_sending ms

-- What `claim_due` does between `begin` and `commit`.
unfoldable pub claim : ℕ → ℕ → Exec Text (List QueuedMessage)
claim time limit = do
  rows ← select (λ db. due_rows time limit db.outbox)
  mark_sending (messages_of rows)
  pure (messages_of rows)

unfoldable pub claim_due : ℕ → Exec Text (List QueuedMessage)
claim_due limit = do time ← now; transaction (claim time limit)

abbrev pub requeue_row : ℕ → OutboxRow → OutboxRow
requeue_row time r =
    if is_sending r.message.status
    then record r { message = record r.message { status = pending }; next_attempt_at = time }
    else r

unfoldable pub requeue_rows : ℕ → List OutboxRow → List OutboxRow
unfolding is_sending
requeue_rows time [] = []
requeue_rows time (r ∷ rest) = requeue_row time r ∷ requeue_rows time rest

-- Returns the number of rows that were changed.
unfoldable pub requeue_interrupted : Exec Text ℕ
requeue_interrupted = do
  time ← now
  affected ← gets (λ w. length (keep (λ r. is_sending r.message.status) w.db.outbox))
  execute (λ db. ok (record db { outbox = requeue_rows time db.outbox }))
  pure affected

abbrev pub set_delivered : ℕ → OutboxRow → OutboxRow
set_delivered time r = record r {
  message = record r.message { status = delivered; last_error = none };
  delivered_at = some time;
}

unfoldable pub mark_delivered : Text → Exec Text (Unit {0})
mark_delivered message_id = do time ← now; execute (update_row message_id (set_delivered time))

-- Minutes. `1i64.checked_shl(k)` has a value, 2 ^ k, for every k below 64.
unfoldable pub backoff : ℕ → ℕ
backoff attempts = min (2 ^ min attempts 16) 360

abbrev pub nanoseconds_per_minute : ℕ
nanoseconds_per_minute = 60_000_000_000

abbrev pub set_failed : ℕ → Text → OutboxRow → OutboxRow
set_failed attempts error r = record r {
  message = record r.message { status = failed; attempts = attempts; last_error = some error };
}

abbrev pub set_retry : ℕ → Text → ℕ → OutboxRow → OutboxRow
set_retry attempts error time r = record r {
  message = record r.message { status = pending; attempts = attempts; last_error = some error };
  next_attempt_at = time;
}

-- What a failed attempt writes; `attempts` counts the attempts before it.
unfoldable pub failure_update : ℕ → ℕ → Text → ℕ → OutboxRow → OutboxRow
unfolding backoff
failure_update attempts max_attempts error time r =
    if leb max_attempts (attempts + 1)
    then set_failed (attempts + 1) error r
    else set_retry (attempts + 1) error (time + backoff (attempts + 1) * nanoseconds_per_minute) r

unfoldable pub mark_attempt_failed : Text → ℕ → ℕ → Text → Exec Text (Unit {0})
mark_attempt_failed message_id attempts max_attempts error = do
  time ← now
  execute (update_row message_id (failure_update attempts max_attempts error time))

-- `ORDER BY created_at DESC LIMIT ?`.
abbrev pub newer : OutboxRow → OutboxRow → Bool
newer a b = leb b.message.created_at a.message.created_at

unfoldable pub list_recent : ℕ → Exec Text (List QueuedMessage)
list_recent limit = select (λ db. messages_of (take limit (sort_by newer db.outbox)))
