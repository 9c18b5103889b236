-- ===== src/Delivery/Worker/Settled/Ends.antt =====
-- Each delivery ends the sending of its own message, and starts no other.
use weiterleitung.Prelude.{
  ℕ, ◌≡◌, refl, ◌∙◌, sym, ap, subst, Bool, true, false, if◌then◌else◌, List, [], ◌∷◌, In, head,
  later, Result, ok, err, arith, ◌⊎◌, Bool-cases, inl, inr,
}
use weiterleitung.Text.{Text, Bytes}
use weiterleitung.Database.{Db, World, OutboxRow, QueuedMessage}
use weiterleitung.Database.Exec.{Exec, gets, ◌>>=◌, attempt, execute, now}
use weiterleitung.Database.Frame.{Steps, IsFrame, Steps-execute, Steps-attempt}
use weiterleitung.Delivery.Queue.{
  is_sending, has_id, update_message, update_row, set_delivered, failure_update, mark_delivered,
  mark_attempt_failed,
}
use weiterleitung.Delivery.Worker.{Sender, read_spool, sent, deliver_raw, deliver}
use weiterleitung.Delivery.Worker.Settled.Clean.{IsClean-attempt}

abbrev pub in_flight : OutboxRow → Bool
in_flight r = is_sending r.message.status

-- No row is new among those that are being sent.
unfoldable pub Calms : World → World → Type 0
Calms w v = (r : OutboxRow) → In r v.db.outbox → In r w.db.outbox ⊎ (in_flight r ≡ false)

pub Calms-IsFrame : IsFrame Calms
unfolding Calms
Calms-IsFrame = record {
  same = λ w r h. inl h;
  trans = λ a b c f g r h. elim (g r h) [ inl i ↦ f r i | inr e ↦ inr e ];
  faults = λ w fs r h. inl h;
  draw = λ w n r h. inl h;
}

-- An update that ends the sending of a row, and keeps its identifier.
record Ends (f : OutboxRow → OutboxRow) : Type 0 where
  calm : (x : OutboxRow) → in_flight (f x) ≡ false
  id : (x : OutboxRow) → (f x).message.message_id ≡ x.message.message_id

set_delivered-Ends : (time : ℕ) → Ends (set_delivered time)
unfolding is_sending
set_delivered-Ends time = record { calm = λ x. refl; id = λ x. refl }

failure_update-Ends : (n max : ℕ) (e : Text) (time : ℕ) → Ends (failure_update n max e time)
unfolding failure_update is_sending
failure_update-Ends n max e time = record { calm = λ x. ground arith; id = λ x. ground arith }

update_message-Ends :
    (id : Text) (f : OutboxRow → OutboxRow) (rows : List OutboxRow) (r : OutboxRow)
    → Ends f
    → In r (update_message id f rows)
    → (In r rows × (has_id id r ≡ false)) ⊎ (in_flight r ≡ false)
unfolding update_message
update_message-Ends id f [] r e h = elim h [ ]
update_message-Ends id f (x ∷ rows) r e (head q) = elim (Bool-cases (has_id id x)) [
  | inl k ↦
      let p : r ≡ f x = q ∙ ap (λ b. if b then f x else x) k in
      inr (subst (λ y. in_flight y ≡ false) (sym p) (e.calm x))
  | inr k ↦
      let p : r ≡ x = q ∙ ap (λ b. if b then f x else x) k in
      inl (head p, subst (λ y. has_id id y ≡ false) (sym p) k)
]
update_message-Ends id f (x ∷ rows) r e (later h) = elim (update_message-Ends id f rows r e h) [
  | inl (i, k) ↦ inl (later i, k)
  | inr k ↦ inr k
]

update_row-Calms :
    (id : Text) (f : OutboxRow → OutboxRow) → Ends f → Steps Calms (execute (update_row id f))
unfolding Calms
update_row-Calms id f e = Steps-execute Calms-IsFrame (update_row id f) (λ w db h r i.
    let q : db.outbox ≡ update_message id f w.db.outbox = ground arith in
    elim (update_message-Ends id f w.db.outbox r e (subst (λ rows. In r rows) q i)) [
      | inl (j, k) ↦ inl j
      | inr k ↦ inr k
    ])

execute-clean :
    (f : Db → Result Text Db) (w : World) (db : Db)
    → w.faults ≡ []
    → f w.db ≡ ok db
    → (execute f w).1.db ≡ db
unfolding execute attempt ◌>>=◌
execute-clean f w db e h = ground arith

-- Without failures, an update that ends the sending of the rows with an identifier ends it.
update_row-settles :
    (id : Text) (f : OutboxRow → OutboxRow) (w : World) (r : OutboxRow)
    → Ends f
    → w.faults ≡ []
    → In r (execute (update_row id f) w).1.db.outbox
    → has_id id r ≡ true
    → in_flight r ≡ false
update_row-settles id f w r e clean h own =
    let q =
      execute-clean (update_row id f) w (record w.db { outbox = update_message id f w.db.outbox })
        clean refl in
    elim (update_message-Ends id f w.db.outbox r e (subst (λ (d : Db). In r d.outbox) q h)) [
      | inl (i, k) ↦ cc (own, k)
      | inr k ↦ k
    ]

-- What a handler does to the rows with an identifier, and to the others.
pub record Settles (id : Text) (m : Exec Text (Unit {0})) : Type 0 where
  pub calms : Steps Calms m
  pub ends :
      (w : World) (r : OutboxRow)
      → w.faults ≡ []
      → In r (m w).1.db.outbox
      → has_id id r ≡ true
      → in_flight r ≡ false

now-Settles :
    (id : Text) (f : ℕ → OutboxRow → OutboxRow)
    → ((time : ℕ) → Ends (f time))
    → Settles id (now >>= λ time. execute (update_row id (f time)))
unfolding now gets ◌>>=◌
now-Settles id f e = record {
  calms = record { at = λ w. (update_row-Calms id (f w.clock) (e w.clock)).at w };
  ends = λ w r clean h own. update_row-settles id (f w.clock) w r (e w.clock) clean h own;
}

sent-Settles :
    (id : Text) (n max : ℕ) (answer : Result Text (Unit {0})) → Settles id (sent id n max answer)
unfolding mark_delivered mark_attempt_failed
sent-Settles id n max (ok t) = now-Settles id set_delivered set_delivered-Ends
sent-Settles id n max (err e) =
    now-Settles id (failure_update n max e) (failure_update-Ends n max e)

deliver_raw-Settles :
    (sender : Sender) (max : ℕ) (m : QueuedMessage) (raw : Result Text Bytes)
    → Settles m.message_id (deliver_raw sender max m raw)
deliver_raw-Settles sender max m (err x) = sent-Settles m.message_id max max (err _)
deliver_raw-Settles sender max m (ok raw) = record {
  calms = record {
    at = λ w.
        (sent-Settles m.message_id m.attempts max
            (sender w m.envelope_from m.envelope_to raw)).calms.at
          w;
  };
  ends = λ w.
      (sent-Settles m.message_id m.attempts max (sender w m.envelope_from m.envelope_to raw)).ends
        w;
}

pub deliver-Settles :
    (sender : Sender) (max : ℕ) (m : QueuedMessage) → Settles m.message_id (deliver sender max m)
unfolding deliver read_spool
deliver-Settles sender max m = record {
  calms = record {
    at = λ w.
        Calms-IsFrame.trans w (attempt w).1 _ ((Steps-attempt Calms-IsFrame).at w)
          ((deliver_raw-Settles sender max m (read_spool m.raw_path w).0).calms.at (attempt w).1);
  };
  ends = λ w r clean.
      (deliver_raw-Settles sender max m (read_spool m.raw_path w).0).ends (attempt w).1 r
        (IsClean-attempt.keeps w clean);
}
