-- ===== src/Delivery/Worker/Settled.antt =====
-- What a pass of the worker brings to an end: where no operation fails, no message that it claimed
-- is left as being sent.
mod Clean
mod Ends
use weiterleitung.Prelude.{
  ℕ, ◌≡◌, refl, ◌∙◌, sym, ap, subst, Bool, true, false, if◌then◌else◌, List, [], ◌∷◌, any, In, head,
  later, Option, none, some, Result, ok, err, arith, ◌⊎◌, Bool-cases, inl, inr,
}
use weiterleitung.Text.{Text, Bytes, eq_text_refl}
use weiterleitung.Database.{
  Db, World, OutboxRow, QueuedMessage, Status, pending, sending, delivered, failed,
}
use weiterleitung.Database.Exec.{
  Exec, pure, gets, continue, ◌>>=◌, attempt, select, execute, store, roll_back, transaction, now,
}
use weiterleitung.Database.Frame.{
  Steps, IsFrame, Steps-bind, Steps-execute, Steps-now, Steps-attempt,
}
use weiterleitung.Delivery.Queue.{
  is_sending, has_id, update_message, update_row, set_sending, messages_of, due_rows, mark_sending,
  claim, claim_due, set_delivered, failure_update, mark_delivered, mark_attempt_failed,
}
use weiterleitung.Delivery.Queue.Claim.{is_claimed, marked, claim_due-IsBatch}
use weiterleitung.Delivery.Worker.{
  Sender, batch_size, read_spool, sent, deliver_raw, deliver, deliver_all, claimed, drain_outbox,
}
use weiterleitung.Delivery.Worker.Untouched.{claim_due-err}
use Clean.{IsClean, IsClean-claim_due, IsClean-deliver}
use Ends.{in_flight, Calms, Calms-IsFrame, Settles, deliver-Settles}

deliver_all-Calms :
    (sender : Sender) (max : ℕ) (ms : List QueuedMessage) (w : World)
    → Calms w (deliver_all sender max ms w)
unfolding deliver_all
deliver_all-Calms sender max [] w = Calms-IsFrame.same w
deliver_all-Calms sender max (m ∷ ms) w =
    Calms-IsFrame.trans w _ _ ((deliver-Settles sender max m).calms.at w)
      (deliver_all-Calms sender max ms (deliver sender max m w).1)

deliver_all-settles :
    (sender : Sender) (max : ℕ) (ms : List QueuedMessage) (w : World) (r : OutboxRow)
    → w.faults ≡ []
    → In r (deliver_all sender max ms w).db.outbox
    → is_claimed ms r ≡ true
    → in_flight r ≡ false
unfolding deliver_all any Calms
deliver_all-settles sender max [] w r clean h own = cc
deliver_all-settles sender max (m ∷ ms) w r clean h own =
    let u = (deliver sender max m w).1 in
    let still = (IsClean-deliver sender max m).keeps w clean in
    elim (Bool-cases (is_claimed ms r)) [
      | inl k ↦ deliver_all-settles sender max ms u r still h k
      | inr k ↦
          let mine : has_id m.message_id r ≡ true = ground arith in
          elim (deliver_all-Calms sender max ms u r h) [
            | inl i ↦ (deliver-Settles sender max m).ends w r clean i mine
            | inr e ↦ e
          ]
    ]

marked-unclaimed :
    (ms : List QueuedMessage) (rows : List OutboxRow) (r : OutboxRow)
    → In r (marked ms rows)
    → is_claimed ms r ≡ false
    → In r rows
unfolding any
marked-unclaimed ms [] r h e = elim h [ ]
marked-unclaimed ms (x ∷ rows) r (later h) e = later (marked-unclaimed ms rows r h e)
marked-unclaimed ms (x ∷ rows) r (head q) e = elim (Bool-cases (is_claimed ms x)) [
  | inr k ↦ head (q ∙ ap (λ b. if b then set_sending x else x) k)
  | inl k ↦
      let p : r ≡ set_sending x = q ∙ ap (λ b. if b then set_sending x else x) k in
      let bad : is_claimed ms (set_sending x) ≡ false = subst (λ y. is_claimed ms y ≡ false) p e in
      cc (k, bad)
]

-- Where no operation fails, a pass of the worker, whatever the relay answers, leaves no message
-- that it claimed as being sent: a row that is being sent after it was in the table before it.
pub drain_outbox-settles :
    (sender : Sender) (max_attempts : ℕ) (w : World) (r : OutboxRow)
    → w.faults ≡ []
    → In r (drain_outbox sender max_attempts w).1.db.outbox
    → in_flight r ≡ true
    → In r w.db.outbox
unfolding drain_outbox Calms
drain_outbox-settles sender max w r clean h flying =
    from (claim_due batch_size w) refl ((IsClean-claim_due batch_size).keeps w clean) h
  where
    from :
        (p : Result Text (List QueuedMessage) × World)
        → claim_due batch_size w ≡ p
        → p.1.faults ≡ []
        → In r (claimed sender max p).1.db.outbox
        → In r w.db.outbox
    from (err e, v) q c i = subst (λ (x : Db). In r x.outbox) (claim_due-err batch_size w q) i
    from (ok ms, v) q c i =
        let b = claim_due-IsBatch batch_size w q in
        elim (Bool-cases (is_claimed ms r)) [
          | inl k ↦ cc (deliver_all-settles sender max ms v r c i k, flying)
          | inr k ↦ elim (deliver_all-Calms sender max ms v r i) [
            | inl j ↦ marked-unclaimed ms w.db.outbox r (subst (λ rows. In r rows) b.outbox j) k
            | inr e ↦ cc (e, flying)
          ]
        ]
