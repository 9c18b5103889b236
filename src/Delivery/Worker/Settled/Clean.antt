-- ===== src/Delivery/Worker/Settled/Clean.antt =====
-- Handlers that meet no failure where the environment has none left, those of a pass among them.
use weiterleitung.Prelude.{ℕ, ◌≡◌, List, [], ◌∷◌, Result, ok, err, arith}
use weiterleitung.Text.{Text, Bytes}
use weiterleitung.Database.{Db, World, QueuedMessage}
use weiterleitung.Database.Exec.{
  Exec, pure, gets, continue, ◌>>=◌, attempt, select, execute, store, roll_back, transaction, now,
}
use weiterleitung.Delivery.Queue.{
  update_row, set_sending, mark_sending, claim, claim_due, mark_delivered, mark_attempt_failed,
}
use weiterleitung.Delivery.Worker.{Sender, read_spool, sent, deliver_raw, deliver}

-- A handler under which a world without failures stays one.
pub record IsClean {E A : Type 0} (m : Exec E A) : Type 0 where
  pub keeps : (w : World) → w.faults ≡ [] → (m w).1.faults ≡ []

IsClean-bind :
    {E A B : Type 0} (m : Exec E A) (f : A → Exec E B)
    → IsClean m
    → ((a : A) → IsClean (f a))
    → IsClean (m >>= f)
unfolding ◌>>=◌
IsClean-bind {E} {A} {B} m f h k = record { keeps = λ w e. from (m w) (h.keeps w e) }
  where
    from : (p : Result E A × World) → p.1.faults ≡ [] → (continue p.0 f p.1).1.faults ≡ []
    from (ok a, u) e = (k a).keeps u e
    from (err x, u) e = e

pub IsClean-attempt : IsClean attempt
unfolding attempt
IsClean-attempt = record { keeps = λ w e. ground arith }

IsClean-pure : {A : Type 0} (a : A) → IsClean (pure {E = Text} a)
unfolding pure
IsClean-pure a = record { keeps = λ w e. e }

IsClean-select : {A : Type 0} (q : Db → A) → IsClean (select q)
unfolding select gets
IsClean-select q = IsClean-bind attempt _ IsClean-attempt (λ _. record { keeps = λ w e. e })

store-clean : (r : Result Text Db) (w : World) → w.faults ≡ [] → (store r w).1.faults ≡ []
store-clean (ok db) w e = e
store-clean (err x) w e = e

IsClean-execute : (f : Db → Result Text Db) → IsClean (execute f)
unfolding execute
IsClean-execute f =
    IsClean-bind attempt _ IsClean-attempt (λ _. record { keeps = λ w e. store-clean (f w.db) w e })

IsClean-now : {B : Type 0} (f : ℕ → Exec Text B) → ((t : ℕ) → IsClean (f t)) → IsClean (now >>= f)
unfolding now gets ◌>>=◌
IsClean-now f h = record { keeps = λ w e. (h w.clock).keeps w e }

IsClean-transaction : {A : Type 0} (m : Exec Text A) → IsClean m → IsClean (transaction m)
unfolding transaction
IsClean-transaction m h = record { keeps = λ w e. from w.db _ ((body h).keeps w e) }
  where
    body :
        {A : Type 0} {m : Exec Text A}
        → IsClean m
        → IsClean (attempt >>= λ _. m >>= λ a. attempt >>= λ _. pure a)
    body {m = m} h = IsClean-bind attempt _ IsClean-attempt (λ _.
        IsClean-bind m _ h (λ a. IsClean-bind attempt _ IsClean-attempt (λ _. IsClean-pure a)))

    from :
        {A : Type 0} (db : Db) (p : Result Text A × World)
        → p.1.faults ≡ []
        → (roll_back db p).1.faults ≡ []
    from db (ok a, u) e = e
    from db (err x, u) e = e

IsClean-mark_sending : (ms : List QueuedMessage) → IsClean (mark_sending ms)
unfolding mark_sending
IsClean-mark_sending [] = IsClean-pure tt
IsClean-mark_sending (m ∷ ms) =
    IsClean-bind _ _ (IsClean-execute (update_row m.message_id set_sending))
      (λ _. IsClean-mark_sending ms)

pub IsClean-claim_due : (limit : ℕ) → IsClean (claim_due limit)
unfolding claim_due claim
IsClean-claim_due limit = IsClean-now _ (λ time. IsClean-transaction _ (
    IsClean-bind _ _ (IsClean-select _)
      (λ rows. IsClean-bind _ _ (IsClean-mark_sending _) (λ _. IsClean-pure _))))

IsClean-sent :
    (id : Text) (n max : ℕ) (answer : Result Text (Unit {0})) → IsClean (sent id n max answer)
unfolding mark_delivered mark_attempt_failed
IsClean-sent id n max (ok t) = IsClean-now _ (λ time. IsClean-execute _)
IsClean-sent id n max (err e) = IsClean-now _ (λ time. IsClean-execute _)

IsClean-deliver_raw :
    (sender : Sender) (max : ℕ) (m : QueuedMessage) (raw : Result Text Bytes)
    → IsClean (deliver_raw sender max m raw)
IsClean-deliver_raw sender max m (ok raw) = record {
  keeps = λ w e.
      (IsClean-sent m.message_id m.attempts max (sender w m.envelope_from m.envelope_to raw)).keeps
        w e;
}
IsClean-deliver_raw sender max m (err x) = IsClean-sent m.message_id max max (err _)

pub IsClean-deliver :
    (sender : Sender) (max : ℕ) (m : QueuedMessage) → IsClean (deliver sender max m)
unfolding deliver read_spool
IsClean-deliver sender max m = record {
  keeps = λ w e.
      (IsClean-deliver_raw sender max m (read_spool m.raw_path w).0).keeps (attempt w).1
        (IsClean-attempt.keeps w e);
}
