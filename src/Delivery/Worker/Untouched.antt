-- ===== src/Delivery/Worker/Untouched.antt =====
-- What a pass of the worker leaves alone: the rows that are not due.
use weiterleitung.Prelude.{
  ℕ, ◌≡◌, ◌≢◌, ◌⊎◌, ◌<◌, refl, ◌∙◌, sym, ap, subst, Bool, true, false, not, ◌&&◌, List, [], ◌∷◌,
  any, In, head, later, Result, ok, err, arith, Bool-cases, inl, inr,
}
use weiterleitung.Text.{Text, Bytes, eq_text_iff}
use weiterleitung.Database.{
  Db, World, OutboxRow, QueuedMessage, Status, pending, sending, delivered, failed,
}
use weiterleitung.Database.Exec.{attempt, execute, now, gets, ◌>>=◌}
use weiterleitung.Database.Frame.{
  Steps, IsFrame, Steps-bind, Steps-execute, Steps-now, Steps-attempt,
}
use weiterleitung.Delivery.Queue.{
  is_pending, is_due, due_rows, messages_of, has_id, update_message, update_row, claim, claim_due,
  mark_delivered, mark_attempt_failed,
}
use weiterleitung.Delivery.Queue.Claim.{
  is_claimed, marked, IsBatch, claim_due-IsBatch, facts-is_due, transaction_err,
}
use weiterleitung.Delivery.Worker.{
  Sender, batch_size, read_spool, sent, deliver_raw, deliver, deliver_all, claimed, drain_outbox,
}

-- The row, if it is in the table, stays in it.
abbrev pub Stays : OutboxRow → World → World → Type 0
Stays r w v = In r w.db.outbox → In r v.db.outbox

Stays-IsFrame : (r : OutboxRow) → IsFrame (Stays r)
Stays-IsFrame r = record {
  same = λ w h. h;
  trans = λ a b c f g h. g (f h);
  faults = λ w fs h. h;
  draw = λ w n h. h;
}

update_message-In :
    (id : Text) (f : OutboxRow → OutboxRow) (rows : List OutboxRow) (r : OutboxRow)
    → has_id id r ≡ false
    → In r rows
    → In r (update_message id f rows)
unfolding update_message
update_message-In id f [] r e h = h
update_message-In id f (x ∷ rows) r e (head q) =
    let k : has_id id x ≡ false = rw q at e in rw k (head q)
update_message-In id f (x ∷ rows) r e (later h) = later (update_message-In id f rows r e h)

update_row-Stays :
    (id : Text) (f : OutboxRow → OutboxRow) (r : OutboxRow)
    → has_id id r ≡ false
    → Steps (Stays r) (execute (update_row id f))
update_row-Stays id f r e = Steps-execute (Stays-IsFrame r) (update_row id f) (λ w db h k.
    let q : update_message id f w.db.outbox ≡ db.outbox = ground arith in
    subst (λ rows. In r rows) q (update_message-In id f w.db.outbox r e k))

sent-Stays :
    (id : Text) (attempts max : ℕ) (answer : Result Text (Unit {0})) (r : OutboxRow)
    → has_id id r ≡ false
    → Steps (Stays r) (sent id attempts max answer)
unfolding mark_delivered mark_attempt_failed
sent-Stays id attempts max (ok t) r e =
    Steps-bind (Stays-IsFrame r) now _ (Steps-now (Stays-IsFrame r))
      (λ time. update_row-Stays id _ r e)
sent-Stays id attempts max (err x) r e =
    Steps-bind (Stays-IsFrame r) now _ (Steps-now (Stays-IsFrame r))
      (λ time. update_row-Stays id _ r e)

deliver_raw-Stays :
    (sender : Sender) (max : ℕ) (m : QueuedMessage) (raw : Result Text Bytes) (r : OutboxRow)
    → has_id m.message_id r ≡ false
    → Steps (Stays r) (deliver_raw sender max m raw)
deliver_raw-Stays sender max m (ok raw) r e = record {
  at = λ w.
      (sent-Stays m.message_id m.attempts max (sender w m.envelope_from m.envelope_to raw) r e).at
        w;
}
deliver_raw-Stays sender max m (err x) r e = sent-Stays m.message_id max max (err _) r e

deliver-Stays :
    (sender : Sender) (max : ℕ) (m : QueuedMessage) (r : OutboxRow)
    → has_id m.message_id r ≡ false
    → Steps (Stays r) (deliver sender max m)
unfolding deliver read_spool
deliver-Stays sender max m r e = record {
  at = λ w h.
      (deliver_raw-Stays sender max m (read_spool m.raw_path w).0 r e).at (attempt w).1
        ((Steps-attempt (Stays-IsFrame r)).at w h);
}

deliver_all-Stays :
    (sender : Sender) (max : ℕ) (ms : List QueuedMessage) (r : OutboxRow) (w : World)
    → is_claimed ms r ≡ false
    → Stays r w (deliver_all sender max ms w)
unfolding deliver_all any
deliver_all-Stays sender max [] r w e h = h
deliver_all-Stays sender max (m ∷ ms) r w e h =
    let e0 : has_id m.message_id r ≡ false = ground arith in
    let e1 : is_claimed ms r ≡ false = ground arith in
    deliver_all-Stays sender max ms r (deliver sender max m w).1 e1
      ((deliver-Stays sender max m r e0).at w h)

marked-In :
    (ms : List QueuedMessage) (rows : List OutboxRow) (r : OutboxRow)
    → is_claimed ms r ≡ false
    → In r rows
    → In r (marked ms rows)
marked-In ms [] r e h = h
marked-In ms (x ∷ rows) r e (head q) = let k : is_claimed ms x ≡ false = rw q at e in rw k (head q)
marked-In ms (x ∷ rows) r e (later h) = later (marked-In ms rows r e h)

-- The primary key: no two rows have the same identifier.
unfoldable pub unique_ids : List OutboxRow → Bool
unique_ids [] = true
unique_ids (r ∷ rest) = not (any (has_id r.message.message_id) rest) && unique_ids rest

In-any : {A : Type 0} (p : A → Bool) (xs : List A) {x : A} → In x xs → p x ≡ true → any p xs ≡ true
unfolding any
In-any p [] h e = elim h [ ]
In-any p (y ∷ ys) (head q) e = let k : p y ≡ true = rw q at e in ground arith
In-any p (y ∷ ys) (later h) e = let k = In-any p ys h e in ground arith

pub any-In :
    {A : Type 0} (p : A → Bool) (xs : List A) → any p xs ≡ true → (x : A) × In x xs × (p x ≡ true)
unfolding any
any-In p [] e = cc
any-In p (y ∷ ys) e = elim (Bool-cases (p y)) [
  | inl k ↦ (y, head refl, k)
  | inr k ↦
      let rest : any p ys ≡ true = ground arith in
      let (x, i, h) = any-In p ys rest in (x, later i, h)
]

pub unique_ids-eq :
    (rows : List OutboxRow) (a b : OutboxRow)
    → unique_ids rows ≡ true
    → In a rows
    → In b rows
    → a.message.message_id ≡ b.message.message_id
    → a ≡ b
unfolding unique_ids
unique_ids-eq [] a b u i j e = elim i [ ]
unique_ids-eq (r ∷ rest) a b u (head p) (head q) e = p ∙ sym q
unique_ids-eq (r ∷ rest) a b u (head p) (later j) e =
    let k = In-any (has_id r.message.message_id) rest j (
      (eq_text_iff b.message.message_id r.message.message_id).1
        (sym e ∙ ap (λ (x : OutboxRow). x.message.message_id) p)) in
    ground arith
unique_ids-eq (r ∷ rest) a b u (later i) (head q) e =
    let k = In-any (has_id r.message.message_id) rest i (
      (eq_text_iff a.message.message_id r.message.message_id).1
        (e ∙ ap (λ (x : OutboxRow). x.message.message_id) q)) in
    ground arith
unique_ids-eq (r ∷ rest) a b u (later i) (later j) e =
    let v : unique_ids rest ≡ true = ground arith in unique_ids-eq rest a b v i j e

pub messages_of-In :
    (rows : List OutboxRow) {m : QueuedMessage}
    → In m (messages_of rows)
    → (r : OutboxRow) × In r rows × (m ≡ r.message)
messages_of-In [] h = elim h [ ]
messages_of-In (r ∷ rest) (head q) = (r, head refl, q)
messages_of-In (r ∷ rest) (later h) = let (x, i, q) = messages_of-In rest h in (x, later i, q)

not_due-unclaimed :
    (limit : ℕ) (ms : List QueuedMessage) (w v : World) (r : OutboxRow)
    → IsBatch limit ms w v
    → unique_ids w.db.outbox ≡ true
    → In r w.db.outbox
    → is_due w.clock r ≡ false
    → is_claimed ms r ≡ false
not_due-unclaimed limit ms w v r b u i h = elim (Bool-cases (is_claimed ms r)) [
  | inr e ↦ e
  | inl e ↦
      let (m, j, p) = any-In (λ m. has_id m.message_id r) ms e in
      let taken = subst (λ x. In m x) b.taken j in
      let (d, k, q) = messages_of-In (due_rows w.clock limit w.db.outbox) taken in
      let (stored, waits, past) = b.stored d k in
      let ids =
        (eq_text_iff r.message.message_id m.message_id).0 p
        ∙ ap (λ (x : QueuedMessage). x.message_id) q in
      let same = unique_ids-eq w.db.outbox r d u i stored ids in
      let bad : is_due w.clock d ≡ false = subst (λ x. is_due w.clock x ≡ false) same h in
      let due = facts-is_due w.clock d waits past in cc
]

pub claim_due-err :
    (limit : ℕ) (w : World) {e : Text} {v : World} → claim_due limit w ≡ (err e, v) → v.db ≡ w.db
unfolding claim_due now gets ◌>>=◌
claim_due-err limit w h = transaction_err (claim w.clock limit) w h

is_pending-false : (s : Status) → s ≢ pending → is_pending s ≡ false
unfolding is_pending
is_pending-false pending h = elim (h refl) [ ]
is_pending-false sending h = refl
is_pending-false delivered h = refl
is_pending-false failed h = refl

not_due :
    (time : ℕ) (r : OutboxRow)
    → (r.message.status ≢ pending) ⊎ (time < r.next_attempt_at)
    → is_due time r ≡ false
unfolding is_due
not_due time r (inl h) = let e = is_pending-false r.message.status h in ground arith
not_due time r (inr h) = ground arith

-- A pass of the worker, whatever the relay answers and whichever operation fails, leaves every
-- row as it is that is not pending, or has a later time, when the pass begins, so a message that
-- was delivered or has failed for good among them, where no two rows have the same identifier.
pub drain_outbox-Stays :
    (sender : Sender) (max_attempts : ℕ) (w : World) (r : OutboxRow)
    → unique_ids w.db.outbox ≡ true
    → (r.message.status ≢ pending) ⊎ (w.clock < r.next_attempt_at)
    → Stays r w (drain_outbox sender max_attempts w).1
unfolding drain_outbox
drain_outbox-Stays sender max w r u later_or_not i = from (claim_due batch_size w) refl
  where
    d : is_due w.clock r ≡ false
    d = not_due w.clock r later_or_not

    from :
        (p : Result Text (List QueuedMessage) × World)
        → claim_due batch_size w ≡ p
        → In r (claimed sender max p).1.db.outbox
    from (ok ms, v) h =
        let b = claim_due-IsBatch batch_size w h in
        let free = not_due-unclaimed batch_size ms w v r b u i d in
        deliver_all-Stays sender max ms r v free
          (subst (λ x. In r x) (sym b.outbox) (marked-In ms w.db.outbox r free i))
    from (err e, v) h = subst (λ (x : Db). In r x.outbox) (sym (claim_due-err batch_size w h)) i
