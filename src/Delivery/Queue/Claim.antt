-- ===== src/Delivery/Queue/Claim.antt =====
-- What `claim_due` hands to the worker, and what it does to the table.
use weiterleitung.Prelude.{
  and-true, leb, ℕ, ◌≤◌, ◌≡◌, refl, ap, sym, ◌∙◌, subst, Bool, true, if◌then◌else◌, keep, any,
  length, length-map, sort_by, In, In-sort_by, sort_by-In, sort_by-IsSorted, take-In, take-sorted,
  leb→le, In-keep, keep-In, List, [], ◌∷◌, Result, ok, err, arith, Bool-cases, inl, inr, ◌⊎◌,
}
use weiterleitung.Text.{Text}
use weiterleitung.Database.{Db, World, OutboxRow, QueuedMessage}
use weiterleitung.Database.Exec.{Exec, pure, ◌>>=◌, transaction, roll_back, attempt}
use weiterleitung.Database.Frame.{>>=-eq-ok}
use weiterleitung.Database.Run.{attempt_ok, select_ok, execute_ok, now_ok, pure_ok}
use weiterleitung.Database.{Status, pending, sending, delivered, failed}
use weiterleitung.Delivery.Queue.{
  is_pending, is_due, earlier, due_rows, messages_of, has_id, update_message, update_row,
  set_sending, mark_sending, claim, claim_due,
}

-- Whether a row is one of the messages.
abbrev pub is_claimed : List QueuedMessage → OutboxRow → Bool
is_claimed ms r = any (λ m. has_id m.message_id r) ms

-- The table with the claimed rows marked.
abbrev pub marked : List QueuedMessage → List OutboxRow → List OutboxRow
marked ms [] = []
marked ms (r ∷ rest) = (if is_claimed ms r then set_sending r else r) ∷ marked ms rest

marked_none : (rows : List OutboxRow) → marked [] rows ≡ rows
unfolding any
marked_none [] = refl
marked_none (r ∷ rest) = ap (◌∷◌ r) (marked_none rest)

marked_more :
    (m : QueuedMessage) (ms : List QueuedMessage) (rows : List OutboxRow)
    → marked ms (update_message m.message_id set_sending rows) ≡ marked (m ∷ ms) rows
unfolding update_message any
marked_more m ms [] = refl
marked_more m ms (r ∷ rest) = elim (Bool-cases (has_id m.message_id r)) [
  | inl e ↦ rw e (elim (Bool-cases (is_claimed ms r)) [
    | inl k ↦ rw k (ap (◌∷◌ (set_sending r)) (marked_more m ms rest))
    | inr k ↦ rw k (ap (◌∷◌ (set_sending r)) (marked_more m ms rest))
  ])
  | inr e ↦ rw e (ap (◌∷◌ (if is_claimed ms r then set_sending r else r)) (marked_more m ms rest))
]

mark_sending-marked :
    (ms : List QueuedMessage) (w : World) {a : Unit {0}} {v : World}
    → mark_sending ms w ≡ (ok a, v)
    → (gs : List Bool) × (v
        ≡ record w { db = record w.db { outbox = marked ms w.db.outbox }; faults = gs })
unfolding mark_sending
mark_sending-marked [] w h =
    let (q, p) = pure_ok tt w h in
    (
      w.faults,
      p ∙ ap (λ o. record w { db = record w.db { outbox = o } }) (sym (marked_none w.db.outbox)),
    )
mark_sending-marked (m ∷ ms) w h =
    let (gs, db, r, k) =
      execute_ok (update_row m.message_id set_sending) (λ _. mark_sending ms) w h in
    let (hs, e) = mark_sending-marked ms (record w { db = db; faults = gs }) k in
    let q : db ≡ record w.db { outbox = update_message m.message_id set_sending w.db.outbox } =
      ground arith in
    (
      hs,
      e
          ∙ ap (λ (d : Db). record w { db = record d { outbox = marked ms d.outbox }; faults = hs })
              q
          ∙ ap (λ o. record w { db = record w.db { outbox = o }; faults = hs })
              (marked_more m ms w.db.outbox),
    )

roll_back_ok :
    {A : Type 0} (db : Db) (p : Result Text A × World) {a : A} {v : World}
    → roll_back db p ≡ (ok a, v)
    → p ≡ (ok a, v)
roll_back_ok db (ok a, w) h = h
roll_back_ok db (err e, w) h = cc

-- A transaction that succeeds has run its body between two operations that did not fail.
transaction_ok :
    {A : Type 0} {a : A} {v : World} (m : Exec Text A) (w : World)
    → transaction m w ≡ (ok a, v)
    → (gs hs : List Bool) × (u : World) × (m (record w { faults = gs }) ≡ (ok a, u))
      × (v ≡ record u { faults = hs })
unfolding transaction
transaction_ok {a = a} m w h =
    let h1 = roll_back_ok w.db ((attempt >>= λ _. m >>= λ a. attempt >>= λ _. pure a) w) h in
    let (gs, h2) = attempt_ok (λ _. m >>= λ a. attempt >>= λ _. pure a) w h1 in
    let (b, u, e, h3) = >>=-eq-ok m (λ a. attempt >>= λ _. pure a) (record w { faults = gs }) h2 in
    let (hs, h4) = attempt_ok (λ _. pure b) u h3 in
    let (q, p) = pure_ok b (record u { faults = hs }) h4 in
    (gs, hs, u, subst (λ x. m (record w { faults = gs }) ≡ (ok x, u)) q e, p)

pub transaction_err :
    {A : Type 0} {e : Text} {v : World} (m : Exec Text A) (w : World)
    → transaction m w ≡ (err e, v)
    → v.db ≡ w.db
unfolding transaction
transaction_err {e = e} {v = v} m w h =
    from ((attempt >>= λ _. m >>= λ a. attempt >>= λ _. pure a) w) h
  where
    from : {A : Type 0} (p : Result Text A × World) → roll_back w.db p ≡ (err e, v) → v.db ≡ w.db
    from (ok a, u) k = cc
    from (err x, u) k = ground arith

claim_ok :
    (time limit : ℕ) (w : World) {ms : List QueuedMessage} {v : World}
    → claim time limit w ≡ (ok ms, v)
    → (gs : List Bool) × (ms ≡ messages_of (due_rows time limit w.db.outbox))
      × (v ≡ record w {
        db = record w.db {
          outbox = marked (messages_of (due_rows time limit w.db.outbox)) w.db.outbox;
        };
        faults = gs;
      })
unfolding claim
claim_ok time limit w h =
    let (gs, k) = select_ok (λ db. due_rows time limit db.outbox) _ w h in
    let rows = due_rows time limit w.db.outbox in
    let (a, u, e, l) = >>=-eq-ok (mark_sending (messages_of rows)) _ (record w { faults = gs }) k in
    let (hs, s) = mark_sending-marked (messages_of rows) (record w { faults = gs }) e in
    let (q, p) = pure_ok (messages_of rows) u l in (hs, sym q, p ∙ s)

-- What a claim says of the table before it and after it.
pub record IsBatch (limit : ℕ) (ms : List QueuedMessage) (w v : World) : Type 0 where
  pub taken : ms ≡ messages_of (due_rows w.clock limit w.db.outbox)
  pub outbox : v.db.outbox ≡ marked ms w.db.outbox
  pub stored :
      (r : OutboxRow)
      → In r (due_rows w.clock limit w.db.outbox)
      → In r w.db.outbox × (r.message.status ≡ pending) × (r.next_attempt_at ≤ w.clock)
  pub oldest :
      (r : OutboxRow)
      → In r w.db.outbox
      → r.message.status ≡ pending
      → r.next_attempt_at ≤ w.clock
      → In r (due_rows w.clock limit w.db.outbox)
        ⊎ ((length ms ≡ limit)
            × ((y : OutboxRow)
                → In y (due_rows w.clock limit w.db.outbox)
                → y.next_attempt_at ≤ r.next_attempt_at))

is_pending-eq : (s : Status) → is_pending s ≡ true → s ≡ pending
unfolding is_pending
is_pending-eq pending h = refl
is_pending-eq sending h = cc
is_pending-eq delivered h = cc
is_pending-eq failed h = cc

is_due-facts :
    (time : ℕ) (r : OutboxRow)
    → is_due time r ≡ true
    → (r.message.status ≡ pending) × (r.next_attempt_at ≤ time)
unfolding is_due
is_due-facts time r h =
    let (p, t) = and-true (is_pending r.message.status) (leb r.next_attempt_at time) h in
    (is_pending-eq r.message.status p, leb→le r.next_attempt_at time t)

pub facts-is_due :
    (time : ℕ) (r : OutboxRow)
    → r.message.status ≡ pending
    → r.next_attempt_at ≤ time
    → is_due time r ≡ true
unfolding is_due is_pending
facts-is_due time r p t = rw p (ground arith)

due_rows-stored :
    (time limit : ℕ) (rows : List OutboxRow) (r : OutboxRow)
    → In r (due_rows time limit rows)
    → In r rows × (is_due time r ≡ true)
unfolding due_rows
due_rows-stored time limit rows r h =
    keep-In (is_due time) rows (sort_by-In earlier _ (take-In limit _ h))

due_rows-oldest :
    (time limit : ℕ) (rows : List OutboxRow) (r : OutboxRow)
    → In r rows
    → is_due time r ≡ true
    → In r (due_rows time limit rows)
      ⊎ ((length (due_rows time limit rows) ≡ limit)
          × ((y : OutboxRow) → In y (due_rows time limit rows) → earlier y r ≡ true))
unfolding due_rows
due_rows-oldest time limit rows r i h =
    let sorted =
      sort_by-IsSorted earlier (λ x y k. ground arith) (λ x y z k l. ground arith)
        (keep (is_due time) rows) in
    take-sorted earlier limit (sort_by earlier (keep (is_due time) rows)) sorted
      (In-sort_by earlier (keep (is_due time) rows) (In-keep (is_due time) rows i h))

-- A batch that is claimed holds the messages of rows that are pending and due at the time of the
-- claim. A row that is pending and due and is left out has at least the time of each that was
-- taken, and then the batch is full. The rows with the identifiers of the batch, and no others,
-- are marked as being sent.
pub claim_due-IsBatch :
    (limit : ℕ) (w : World) {ms : List QueuedMessage} {v : World}
    → claim_due limit w ≡ (ok ms, v)
    → IsBatch limit ms w v
unfolding claim_due
claim_due-IsBatch limit w {ms} {v} h =
    let (gs, hs, u, e, p) =
      transaction_ok (claim w.clock limit) w
        (now_ok (λ time. transaction (claim time limit)) w h) in
    let (fs, taken, after) = claim_ok w.clock limit (record w { faults = gs }) e in
    let sizes : length ms ≡ length (due_rows w.clock limit w.db.outbox) =
      ap length taken ∙ length-map _ _ in
    record {
      taken = taken;
      outbox =
          ap (λ (x : World). x.db.outbox) p
          ∙ ap (λ (x : World). x.db.outbox) after
          ∙ ap (λ x. marked x w.db.outbox) (sym taken);
      stored = λ r i.
          let (m, d) = due_rows-stored w.clock limit w.db.outbox r i in
          let (p, t) = is_due-facts w.clock r d in (m, p, t);
      oldest = λ r i p t.
          elim (due_rows-oldest w.clock limit w.db.outbox r i (facts-is_due w.clock r p t)) [
            | inl k ↦ inl k
            | inr (n, f) ↦
                inr (sizes ∙ n, λ y k. leb→le y.next_attempt_at r.next_attempt_at (f y k))
          ];
    }
