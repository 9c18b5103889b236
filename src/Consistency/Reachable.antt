-- ===== src/Consistency/Reachable.antt =====
-- The three tasks on one database: whatever they do, in whatever order, the tables stay consistent.
use weiterleitung.Prelude.{ℕ, ◌≡◌, sym, subst, some, arith}
use weiterleitung.Text.{Text, Bytes, Unicode}
use weiterleitung.Database.{World}
use weiterleitung.Delivery.Queue.{requeue_interrupted}
use weiterleitung.Delivery.Worker.{Sender, drain_outbox}
use weiterleitung.Smtp.Session.{Envelope, Session, SessionConfig, handle_session}
use weiterleitung.Smtp.Session.Invariant.{handle_session-IsOrderly}
use weiterleitung.Smtp.Router.{AliasRouter, verify_recipient, handle, mail_handler}
use weiterleitung.Authentication.Password.{seed_admin_user}
use weiterleitung.Routes.{AppState}
use weiterleitung.Routes.Assets.{AssetFiles}
use weiterleitung.Startup.{Request, serve}
use weiterleitung.Consistency.{IsConsistent}
use weiterleitung.Consistency.Handlers.{requeue_interrupted-Keeps, seed_admin_user-Keeps}
use weiterleitung.Consistency.Mail.{verify_recipient-Keeps, handle-Keeps, drain_outbox-Keeps}
use weiterleitung.Consistency.Pages.{serve-Keeps}

module _ ⦃u : Unicode⦄ {S : Type 0} (app : AppState S) (files : AssetFiles) (r : AliasRouter) where
  -- What one task does to the world: the SMTP server checks a recipient, handles an envelope or holds
  -- a whole conversation; the worker makes a pass, or gives back what was interrupted; the web
  -- interface seeds its administrator or answers a request. The environment changes all but the
  -- tables.
  pub data Acts (w : World) : World → Type 0 where
    checks : (from to : Text) → Acts w (verify_recipient r from to w).1
    handles : (envelope : Envelope) → Acts w (handle r envelope w).1
    converses :
        (config : SessionConfig) (stream : Bytes) (s : Session World)
        → handle_session (mail_handler r) config w stream ≡ some s
        → Acts w s.world
    delivers : (sender : Sender) (max_attempts : ℕ) → Acts w (drain_outbox sender max_attempts w).1
    requeues : Acts w (requeue_interrupted w).1
    seeds : (username password : Text) → Acts w (seed_admin_user app.hashing username password w).1
    answers :
        (request : Request) (session : S)
        → Acts w (serve app files request (record { session = session; world = w })).1.world
    waits : (v : World) → v.db ≡ w.db → Acts w v

  pub data Runs (w : World) : World → Type 0 where
    here : Runs w w
    and_then : (a b : World) → Runs w a → Acts a b → Runs w b

  conversation-IsConsistent :
      (config : SessionConfig) (w : World) (stream : Bytes) (s : Session World)
      → handle_session (mail_handler r) config w stream ≡ some s
      → IsConsistent w.db
      → IsConsistent s.world.db
  unfolding mail_handler
  conversation-IsConsistent config w stream s e c =
      let (t, f, o, k) =
        handle_session-IsOrderly (mail_handler r) config (λ from to. Unit {0})
          (λ v. IsConsistent v.db) (λ from to v i h. tt)
          (λ from to v i. verify_recipient-Keeps r from to v i)
          (λ envelope v d i. (handle-Keeps r envelope).at v i) w stream c in
      let q : t ≡ s = ground arith in subst (λ (x : Session World). IsConsistent x.world.db) q k

  Acts-IsConsistent : {w v : World} → Acts w v → IsConsistent w.db → IsConsistent v.db
  Acts-IsConsistent {w} (checks from to) c = verify_recipient-Keeps r from to w c
  Acts-IsConsistent {w} (handles envelope) c = (handle-Keeps r envelope).at w c
  Acts-IsConsistent {w} (converses config stream s e) c =
      conversation-IsConsistent config w stream s e c
  Acts-IsConsistent {w} (delivers sender max) c = (drain_outbox-Keeps sender max).at w c
  Acts-IsConsistent {w} requeues c = requeue_interrupted-Keeps.at w c
  Acts-IsConsistent {w} (seeds username password) c =
      (seed_admin_user-Keeps app.hashing username password).at w c
  Acts-IsConsistent {w} (answers request session) c =
      serve-Keeps app files request (record { session = session; world = w }) c
  Acts-IsConsistent (waits v e) c = subst IsConsistent (sym e) c

  -- Where the tables are consistent at the start, they are so after any sequence of what the tasks
  -- do, whichever operations fail: keys are unique, references lead somewhere, and at most one mailbox
  -- is the default.
  pub Runs-IsConsistent : {w v : World} → Runs w v → IsConsistent w.db → IsConsistent v.db
  Runs-IsConsistent here c = c
  Runs-IsConsistent (and_then a b before last) c =
      Acts-IsConsistent last (Runs-IsConsistent before c)
