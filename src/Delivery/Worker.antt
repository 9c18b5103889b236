-- ===== src/Delivery/Worker.antt =====
-- src/delivery/worker.rs: one pass over the outbox, and the loop that repeats it. The relay is a
-- parameter: what it answers to an attempt may differ from one attempt to the next, so it reads
-- the world, and the time that it takes is the environment's.
pub mod Untouched
pub mod Settled
pub mod Restart
pub mod Outcomes
use weiterleitung.Prelude.{
  ℕ, zero, suc, Bool, true, false, if◌then◌else◌, List, [], ◌∷◌, ◌++◌, length, Option, none, some,
  Result, ok, err,
}
use weiterleitung.Text.{Text, Bytes, lit, eq_text}
use weiterleitung.Database.{World, QueuedMessage}
use weiterleitung.Database.Exec.{Exec, attempt}
use weiterleitung.Delivery.Queue.{
  claim_due, requeue_interrupted, mark_delivered, mark_attempt_failed,
}

abbrev pub batch_size : ℕ
batch_size = 10

-- The relay's answer to `send(envelope_from, envelope_to, raw)`.
abbrev pub Sender : Type 0
Sender = World → Text → Text → Bytes → Result Text (Unit {0})

unfoldable pub read_file : Text → List (Text × Bytes) → Option Bytes
read_file path [] = none
read_file path ((p, raw) ∷ rest) = if eq_text p path then some raw else read_file path rest

-- `fs::read`: an error where the file is not there, and where the read fails.
abbrev pub read_result : Option Bytes → Result Text (Unit {0}) → Result Text Bytes
read_result o (err e) = err e
read_result none (ok _) = err (lit "No such file or directory")
read_result (some raw) (ok _) = ok raw

unfoldable pub read_spool : Text → World → Result Text Bytes × World
unfolding attempt
read_spool path w = (read_result (read_file path w.spool) (attempt w).0, (attempt w).1)

abbrev pub sent : Text → ℕ → ℕ → Result Text (Unit {0}) → Exec Text (Unit {0})
sent message_id attempts max_attempts (ok _) = mark_delivered message_id
sent message_id attempts max_attempts (err e) =
    mark_attempt_failed message_id attempts max_attempts e

-- With the file of the message, or without it: then retrying cannot help, and the message is
-- marked as if its attempts were used up.
abbrev pub deliver_raw : Sender → ℕ → QueuedMessage → Result Text Bytes → Exec Text (Unit {0})
deliver_raw sender max_attempts m (err e) =
    mark_attempt_failed m.message_id max_attempts max_attempts
      (lit "Failed to read " ++ (m.raw_path ++ (lit ": " ++ e)))
deliver_raw sender max_attempts m (ok raw) =
    λ w. sent m.message_id m.attempts max_attempts (sender w m.envelope_from m.envelope_to raw) w

unfoldable pub deliver : Sender → ℕ → QueuedMessage → Exec Text (Unit {0})
deliver sender max_attempts m w =
    deliver_raw sender max_attempts m (read_spool m.raw_path w).0 (read_spool m.raw_path w).1

-- An error of one message is logged, and the next one follows.
unfoldable pub deliver_all : Sender → ℕ → List QueuedMessage → World → World
deliver_all sender max_attempts [] w = w
deliver_all sender max_attempts (m ∷ ms) w =
    deliver_all sender max_attempts ms (deliver sender max_attempts m w).1

abbrev pub claimed : Sender → ℕ → Result Text (List QueuedMessage) × World → Result Text ℕ × World
claimed sender max_attempts (ok ms, w) = (ok (length ms), deliver_all sender max_attempts ms w)
claimed sender max_attempts (err e, w) = (err e, w)

unfoldable pub drain_outbox : Sender → ℕ → Exec Text ℕ
drain_outbox sender max_attempts w = claimed sender max_attempts (claim_due batch_size w)

-- Whether the loop sleeps before the next pass: after an error, and where nothing was claimed.
abbrev pub sleeps : Result Text ℕ → Bool
sleeps (ok zero) = true
sleeps (ok (suc n)) = false
sleeps (err e) = true

-- The first `n` rounds of the loop. `elapse` is what happens to the world between two passes, with
-- the sleep or without it.
unfoldable pub rounds : Sender → ℕ → (Bool → World → World) → ℕ → World → World
rounds sender max_attempts elapse zero w = w
rounds sender max_attempts elapse (suc n) w =
    let pass = drain_outbox sender max_attempts w in
    rounds sender max_attempts elapse n (elapse (sleeps pass.0) pass.1)

abbrev pub started_worker :
    Sender → ℕ → (Bool → World → World) → ℕ → Result Text ℕ × World → Result Text (Unit {0}) × World
started_worker sender max_attempts elapse n (ok requeued, w) =
    (ok tt, rounds sender max_attempts elapse n w)
started_worker sender max_attempts elapse n (err e, w) = (err e, w)

-- The worker until it is stopped after `n` rounds, from what `Relay::build` gave. A result is the
-- error that ends it before the loop, which never ends by itself.
unfoldable pub run_delivery_worker :
    Result Text Sender → ℕ → (Bool → World → World) → ℕ → Exec Text (Unit {0})
run_delivery_worker (err e) max_attempts elapse n w = (err e, w)
run_delivery_worker (ok sender) max_attempts elapse n w =
    started_worker sender max_attempts elapse n (requeue_interrupted w)
