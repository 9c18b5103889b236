-- ===== src/Delivery/Worker/Restart.antt =====
-- A worker that starts again: what was being sent when the last one stopped is sent again.
use weiterleitung.Prelude.{
  ℕ, ◌≡◌, refl, sym, ◌∙◌, ap, subst, Bool, true, false, Bool-cases, inl, inr, List, [], ◌∷◌, any,
  keep, length, In, head, later, ok, arith,
}
use weiterleitung.Database.{Db, World, OutboxRow, pending}
use weiterleitung.Database.Exec.{gets, ◌>>=◌}
use weiterleitung.Database.Run.{execute_ok, now_ok, pure_ok}
use weiterleitung.Delivery.Queue.{
  is_pending, is_sending, is_due, requeue_row, requeue_rows, requeue_interrupted,
}

abbrev pub in_flight : OutboxRow → Bool
in_flight r = is_sending r.message.status

requeue_row-in_flight : (time : ℕ) (r : OutboxRow) → in_flight (requeue_row time r) ≡ false
unfolding is_sending
requeue_row-in_flight time r = elim (Bool-cases (in_flight r)) [
  | inl e ↦ rw e refl
  | inr e ↦ rw e e
]

requeue_rows-in_flight :
    (time : ℕ) (rows : List OutboxRow) → any in_flight (requeue_rows time rows) ≡ false
unfolding requeue_rows any
requeue_rows-in_flight time [] = refl
requeue_rows-in_flight time (r ∷ rows) =
    rw (requeue_row-in_flight time r, requeue_rows-in_flight time rows) refl

requeue_rows-In :
    (time : ℕ) (rows : List OutboxRow) (r : OutboxRow)
    → In r rows
    → In (requeue_row time r) (requeue_rows time rows)
unfolding requeue_rows
requeue_rows-In time [] r i = elim i [ ]
requeue_rows-In time (x ∷ rows) r (head q) = head (ap (requeue_row time) q)
requeue_rows-In time (x ∷ rows) r (later i) = later (requeue_rows-In time rows r i)

requeued :
    (w : World) {n : ℕ} {v : World}
    → requeue_interrupted w ≡ (ok n, v)
    → (n ≡ length (keep in_flight w.db.outbox))
      × (v.db.outbox ≡ requeue_rows w.clock w.db.outbox)
      × (v.clock ≡ w.clock)
unfolding requeue_interrupted gets ◌>>=◌
requeued w {n} {v} h =
    let (gs, db, r, k) = execute_ok _ _ w (now_ok _ w h) in
    let (p, q) = pure_ok _ _ k in
    let e : record w.db { outbox = requeue_rows w.clock w.db.outbox } ≡ db = ground arith in
    (
      sym p,
      ap (λ (x : World). x.db.outbox) q ∙ sym (ap (λ (x : Db). x.outbox) e),
      ap (λ (x : World). x.clock) q,
    )

-- After the messages that were interrupted have been given back, no message is being sent, and the
-- count that is returned is that of the messages that were.
pub requeue_interrupted-none_in_flight :
    (w : World) {n : ℕ} {v : World}
    → requeue_interrupted w ≡ (ok n, v)
    → (any in_flight v.db.outbox ≡ false) × (n ≡ length (keep in_flight w.db.outbox))
requeue_interrupted-none_in_flight w h =
    let (n, rows, t) = requeued w h in
    (ap (any in_flight) rows ∙ requeue_rows-in_flight w.clock w.db.outbox, n)

-- A message that was being sent is in the outbox again, pending and due at once, with all else of
-- it as it was.
pub requeue_interrupted-is_due :
    (w : World) {n : ℕ} {v : World} (r : OutboxRow)
    → requeue_interrupted w ≡ (ok n, v)
    → In r w.db.outbox
    → in_flight r ≡ true
    → In
        (record r { message = record r.message { status = pending }; next_attempt_at = w.clock })
        v.db.outbox
      × (is_due v.clock (record r {
        message = record r.message { status = pending };
        next_attempt_at = w.clock;
      })
          ≡ true)
unfolding is_due is_pending
requeue_interrupted-is_due w {n} {v} r h i f =
    let (m, rows, t) = requeued w h in
    let k =
      subst (In (requeue_row w.clock r)) (sym rows) (requeue_rows-In w.clock w.db.outbox r i) in
    (rw f at k, rw t (ground arith))
