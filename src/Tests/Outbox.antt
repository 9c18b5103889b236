-- ===== src/Tests/Outbox.antt =====
-- The outbox and the worker.
use weiterleitung.Prelude.{
  ℕ, zero, suc, ◌+◌, ◌*◌, ◌^◌, ◌<◌, ◌≤◌, ltb, if◌then◌else◌, ◌≡◌, refl, arith, inl, ◌≢◌, List, [],
  ◌∷◌, In, head, Option, none, some, Result, ok, err, Bool, true, false,
}
use weiterleitung.Text.{Text, lit}
use weiterleitung.Domain.{reply}
use weiterleitung.Database.{
  Db, World, OutboxRow, QueuedMessage, Status, pending, sending, delivered, failed,
}
use weiterleitung.Delivery.Queue.{
  NewOutboundMessage, enqueue, claim_due, backoff, failure_update, nanoseconds_per_minute, is_due,
}
use weiterleitung.Delivery.Queue.Enqueue.{IsEnqueued, enqueue-IsEnqueued}
use weiterleitung.Delivery.Queue.Claim.{IsBatch, claim_due-IsBatch}
use weiterleitung.Delivery.Queue.Retry.{failure_update-wait}
use weiterleitung.Delivery.Worker.{drain_outbox}
use weiterleitung.Delivery.Worker.Untouched.{unique_ids, drain_outbox-Stays}
use weiterleitung.Delivery.Worker.Settled.{drain_outbox-settles}
use weiterleitung.Tests.Fixture.{a_row, tables, world, closed}

abbrev letter : NewOutboundMessage
letter = record {
  direction = reply;
  envelope_from = lit "shop@x.io";
  envelope_to = lit "bob@b.org";
  raw = lit "raw";
  alias_id = none;
  contact_id = none;
  subject = none;
}

abbrev after_enqueue : World
after_enqueue = (enqueue (lit "mail") letter world).1

enqueue-ok : enqueue (lit "mail") letter world ≡ (ok (lit "id0"), after_enqueue)
unfolding enqueue weiterleitung.Database.Exec.◌>>=◌ weiterleitung.Database.Exec.map_err
    weiterleitung.Database.Exec.attempt weiterleitung.Database.Exec.new_uuid
    weiterleitung.Delivery.Queue.write_file weiterleitung.Database.Exec.now
    weiterleitung.Database.Exec.execute weiterleitung.Delivery.Queue.insert_row
    weiterleitung.Database.Exec.pure
enqueue-ok = refl

enqueue-IsEnqueued_example : IsEnqueued (lit "mail") letter (lit "id0") world after_enqueue
enqueue-IsEnqueued_example = enqueue-IsEnqueued (lit "mail") letter world enqueue-ok

abbrev after_claim : World
after_claim = (claim_due 2 world).1

abbrev batch : List QueuedMessage
batch = (a_row "p" pending 5).message ∷ []

claim-ok : claim_due 2 world ≡ (ok batch, after_claim)
unfolding claim_due weiterleitung.Database.Exec.◌>>=◌ weiterleitung.Database.Exec.now
    weiterleitung.Database.Exec.transaction weiterleitung.Delivery.Queue.claim
    weiterleitung.Database.Exec.select weiterleitung.Delivery.Queue.mark_sending
    weiterleitung.Delivery.Queue.due_rows weiterleitung.Prelude.sort_by weiterleitung.Prelude.keep
    is_due weiterleitung.Database.Exec.execute
claim-ok = refl

claim_due-IsBatch_example : IsBatch 2 batch world after_claim
claim_due-IsBatch_example = claim_due-IsBatch 2 world claim-ok

abbrev fresh : OutboxRow
fresh = a_row "p" pending 5

failure_update-wait_example :
    (7 + 2 * nanoseconds_per_minute ≤ (failure_update 0 3 (lit "refused") 7 fresh).next_attempt_at)
    × ((failure_update 0 3 (lit "refused") 7 fresh).next_attempt_at
        ≤ 7 + 360 * nanoseconds_per_minute)
failure_update-wait_example = failure_update-wait 0 3 (lit "refused") 7 fresh (omega arith)

tables_unique : unique_ids tables.outbox ≡ true
unfolding unique_ids weiterleitung.Prelude.any weiterleitung.Text.eq_text
tables_unique = refl

delivered-pending : delivered ≢ pending
delivered-pending e = cc

drain_outbox-Stays_example : In (a_row "d" delivered 0) (drain_outbox closed 3 world).1.db.outbox
drain_outbox-Stays_example =
    drain_outbox-Stays closed 3 world (a_row "d" delivered 0) tables_unique (inl delivered-pending)
      (head refl)

-- One message that an interrupted pass left behind, and one that is due.
abbrev busy : World
busy = record world {
  db = record tables { outbox = a_row "s" sending 0 ∷ a_row "p" pending 5 ∷ [] };
}

still_sending : In (a_row "s" sending 0) (drain_outbox closed 3 busy).1.db.outbox
unfolding drain_outbox claim_due weiterleitung.Database.Exec.◌>>=◌ weiterleitung.Database.Exec.now
    weiterleitung.Database.Exec.transaction weiterleitung.Delivery.Queue.claim
    weiterleitung.Database.Exec.select weiterleitung.Delivery.Queue.mark_sending
    weiterleitung.Delivery.Queue.due_rows weiterleitung.Prelude.sort_by weiterleitung.Prelude.keep
    is_due weiterleitung.Database.Exec.execute weiterleitung.Delivery.Worker.deliver_all
    weiterleitung.Delivery.Worker.deliver weiterleitung.Delivery.Worker.read_spool
    weiterleitung.Delivery.Worker.read_file weiterleitung.Database.Exec.attempt
    weiterleitung.Database.Exec.gets weiterleitung.Database.Exec.pure backoff failure_update
    weiterleitung.Delivery.Queue.is_pending weiterleitung.Delivery.Queue.mark_attempt_failed
    weiterleitung.Delivery.Queue.mark_delivered weiterleitung.Delivery.Queue.update_message
    weiterleitung.Prelude.insert_by weiterleitung.Text.eq_text
still_sending = head refl

drain_outbox-settles_example : In (a_row "s" sending 0) busy.db.outbox
unfolding weiterleitung.Delivery.Queue.is_sending
drain_outbox-settles_example =
    drain_outbox-settles closed 3 busy (a_row "s" sending 0) refl still_sending refl

abbrev refused_once : OutboxRow
refused_once = record (a_row "p" pending 5) {
  message = record (a_row "p" pending 5).message {
    attempts = 1;
    last_error = some (lit "refused");
  };
  next_attempt_at = 100 + 2 * nanoseconds_per_minute;
}
