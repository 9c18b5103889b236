-- ===== src/Smtp/Session/Invariant.antt =====
-- What holds of the conversation after every round, and what the handler is given.
use weiterleitung.Prelude.{
  ℕ, zero, suc, ◌≤◌, ◌<◌, ◌≡◌, ◌≢◌, refl, Bool, true, false, not, leb, is_empty, length,
  length-append, All, All-append, List, [], ◌∷◌, Option, none, some, Result, ok, err, arith,
  if-intro,
}
use weiterleitung.Text.{Text, Bytes, lit}
use weiterleitung.Text.Split.{split_inclusive}
use weiterleitung.Text.Utf8.{from_utf8}
use weiterleitung.Smtp.Session.{
  MailHandler, SessionConfig, Session, Envelope, Verb, ehlo, helo, mail, rcpt, payload, rset,
  RecipientDecision, accept, reject, max_recipients, say, set_sender, decide, add_recipient,
  received, read_data, run_verb, run_line, turn, go_on, run, start, handle_session,
  parse_address_argument,
}
use weiterleitung.Smtp.Session.Loop.{handle_session_total}
use weiterleitung.Smtp.Session.Payload.{read_data-bound}

-- What the handler may rely on of an envelope that it is handed. `Accepted f r` stands for what
-- its own `verify_recipient` promises of the sender `f` and the recipient `r`.
pub record IsDeliverable (max : ℕ) (Accepted : Text → Text → Type 0) (e : Envelope) : Type 0 where
  pub some_recipient : e.rcpt_to ≢ []
  pub few_recipients : length e.rcpt_to ≤ max_recipients
  pub all_accepted : All (Accepted e.mail_from) e.rcpt_to
  pub small : length e.payload ≤ max

-- The state between two rounds.
pub record IsOrderly {W : Type 0} (Accepted : Text → Text → Type 0) (s : Session W) : Type 0 where
  pub sender_after_greeting : s.greeted ≡ false → s.have_sender ≡ false
  pub recipients_after_sender : s.have_sender ≡ false → s.envelope.rcpt_to ≡ []
  pub few : length s.envelope.rcpt_to ≤ max_recipients
  pub accepted : All (Accepted s.envelope.mail_from) s.envelope.rcpt_to

module _ {W : Type 0} (handler : MailHandler W) (config : SessionConfig)
    (Accepted : Text → Text → Type 0) (Inv : W → Type 0)
    (verify_promises : (f r : Text) (w : W)
      → Inv w
      → (handler.verify_recipient f r w).0 ≡ accept
      → Accepted f r)
    (verify_keeps : (f r : Text) (w : W) → Inv w → Inv (handler.verify_recipient f r w).1)
    (handle_keeps : (e : Envelope) (w : W)
      → IsDeliverable config.max_message_size Accepted e
      → Inv w
      → Inv (handler.handle e w).1) where
  abbrev Good : Session W × Bool → Type 0
  Good p = IsOrderly Accepted p.0 × Inv p.0.world

  IsOrderly-say :
      (line : Text) (s : Session W) → IsOrderly Accepted s → IsOrderly Accepted (say line s)
  IsOrderly-say line s o = record {
    sender_after_greeting = o.sender_after_greeting;
    recipients_after_sender = o.recipients_after_sender;
    few = o.few;
    accepted = o.accepted;
  }

  -- An empty envelope is in order, whatever the flags that go with it.
  IsOrderly-empty :
      (s : Session W)
      → s.envelope.rcpt_to ≡ []
      → (s.greeted ≡ false → s.have_sender ≡ false)
      → IsOrderly Accepted s
  IsOrderly-empty s e g = record {
    sender_after_greeting = g;
    recipients_after_sender = λ h. e;
    few = rw e (omega arith);
    accepted = rw e tt;
  }

  set_sender-IsOrderly :
      (o : Option Text) (s : Session W)
      → s.greeted ≡ true
      → IsOrderly Accepted s
      → IsOrderly Accepted (set_sender o s)
  set_sender-IsOrderly none s g k = IsOrderly-say _ s k
  set_sender-IsOrderly (some a) s g k = IsOrderly-empty _ refl (λ h. cc (g, h))

  set_sender-Inv : (o : Option Text) (s : Session W) → Inv s.world → Inv (set_sender o s).world
  set_sender-Inv none s i = i
  set_sender-Inv (some a) s i = i

  decide-Good :
      (address : Text) (s : Session W) (d : RecipientDecision × W)
      → s.have_sender ≡ true
      → length s.envelope.rcpt_to < max_recipients
      → (d.0 ≡ accept → Accepted s.envelope.mail_from address)
      → Inv d.1
      → IsOrderly Accepted s
      → IsOrderly Accepted (decide address d s) × Inv (decide address d s).world
  decide-Good address s (accept, w) h room promise i o = (
    record {
      sender_after_greeting = o.sender_after_greeting;
      recipients_after_sender = λ k. cc (h, k);
      few = omega (arith, length-append {0} s.envelope.rcpt_to (address ∷ []));
      accepted =
          All-append (Accepted s.envelope.mail_from) s.envelope.rcpt_to (address ∷ []) o.accepted
            (promise refl, tt);
    },
    i,
  )
  decide-Good address s (reject r, w) h room promise i o = (
    IsOrderly-say _ (record s { world = w })
        (record {
          sender_after_greeting = o.sender_after_greeting;
          recipients_after_sender = o.recipients_after_sender;
          few = o.few;
          accepted = o.accepted;
        }),
    i,
  )

  add_recipient-Good :
      (a : Option Text) (s : Session W)
      → s.have_sender ≡ true
      → length s.envelope.rcpt_to < max_recipients
      → IsOrderly Accepted s
      → Inv s.world
      → IsOrderly Accepted (add_recipient handler a s) × Inv (add_recipient handler a s).world
  add_recipient-Good none s h room o i = (IsOrderly-say _ s o, i)
  add_recipient-Good (some a) s h room o i =
      decide-Good a s (handler.verify_recipient s.envelope.mail_from a s.world) h room
        (verify_promises s.envelope.mail_from a s.world i)
        (verify_keeps s.envelope.mail_from a s.world i) o

  received-Good :
      (r : Result Text Bytes × List Bytes) (s : Session W)
      → ((body : Bytes) → r.0 ≡ ok body → length body ≤ config.max_message_size)
      → s.envelope.rcpt_to ≢ []
      → IsOrderly Accepted s
      → Inv s.world
      → IsOrderly Accepted (received handler r s) × Inv (received handler r s).world
  received-Good (ok body, rest) s small ne o i = (
    IsOrderly-empty _ refl (λ h. refl),
    handle_keeps (record s.envelope { payload = body }) s.world
        (record {
          some_recipient = ne;
          few_recipients = o.few;
          all_accepted = o.accepted;
          small = small body refl;
        })
        i,
  )
  received-Good (err reply, rest) s small ne o i = (IsOrderly-empty _ refl (λ h. refl), i)

  run_verb-Good :
      (v : Verb) (rest : Text) (s : Session W)
      → IsOrderly Accepted s
      → Inv s.world
      → IsOrderly Accepted (run_verb handler config v rest s).0
        × Inv (run_verb handler config v rest s).0.world
  unfolding run_verb
  run_verb-Good ehlo rest s o i = (IsOrderly-empty _ refl (λ h. refl), i)
  run_verb-Good helo rest s o i = (IsOrderly-empty _ refl (λ h. refl), i)
  run_verb-Good mail rest s o i =
      if-intro Good (not s.greeted) _ _ (λ h. (IsOrderly-say _ s o, i))
        (λ h. (
          set_sender-IsOrderly (parse_address_argument rest (lit "FROM")) s (ground arith) o,
          set_sender-Inv (parse_address_argument rest (lit "FROM")) s i,
        ))
  run_verb-Good rcpt rest s o i =
      if-intro Good (not s.have_sender) _ _ (λ h. (IsOrderly-say _ s o, i))
        (λ h.
          if-intro Good (leb max_recipients (length s.envelope.rcpt_to)) _ _
            (λ k. (IsOrderly-say _ s o, i))
            (λ k.
              add_recipient-Good (parse_address_argument rest (lit "TO")) s (ground arith)
                (ground arith) o i))
  run_verb-Good payload rest s o i =
      if-intro Good (is_empty s.envelope.rcpt_to) _ _ (λ h. (IsOrderly-say _ s o, i))
        (λ h.
          received-Good (read_data config.max_message_size s.pending)
            (say (lit "354 End data with <CR><LF>.<CR><LF>") s)
            (λ body e. read_data-bound config.max_message_size s.pending e) (λ e. ground arith)
            (IsOrderly-say _ s o) i)
  run_verb-Good rset rest s o i = (IsOrderly-empty _ refl (λ h. refl), i)
  run_verb-Good _ rest s o i = (IsOrderly-say _ s o, i)

  turn-Good :
      (lines : List Bytes) (s : Session W)
      → IsOrderly Accepted s
      → Inv s.world
      → Good (turn handler config lines s)
  unfolding turn run_line
  turn-Good [] s o i = (o, i)
  turn-Good (line ∷ rest) s o i = from (from_utf8 line)
    where
      from : (l : Option Text) → Good (run_line handler config l (record s { pending = rest }))
      from none = (orderly_pending, i)
        where
          orderly_pending : IsOrderly Accepted (record s { pending = rest })
          orderly_pending = record {
            sender_after_greeting = o.sender_after_greeting;
            recipients_after_sender = o.recipients_after_sender;
            few = o.few;
            accepted = o.accepted;
          }
      from (some l) =
          run_verb-Good _ _ _
            (record {
              sender_after_greeting = o.sender_after_greeting;
              recipients_after_sender = o.recipients_after_sender;
              few = o.few;
              accepted = o.accepted;
            })
            i

  run-Good :
      (fuel : ℕ) (s : Session W) {t : Session W}
      → IsOrderly Accepted s
      → Inv s.world
      → run handler config fuel s ≡ some t
      → IsOrderly Accepted t × Inv t.world
  unfolding run
  run-Good zero s o i e = cc
  run-Good (suc fuel) s {t} o i e =
      from (turn handler config s.pending s) (turn-Good s.pending s o i) (λ u. run-Good fuel u) e
    where
      from :
          (p : Session W × Bool)
          → Good p
          → ((u : Session W)
              → IsOrderly Accepted u
              → Inv u.world
              → run handler config fuel u ≡ some t
              → IsOrderly Accepted t × Inv t.world)
          → go_on handler config (λ u. run handler config fuel u) p ≡ some t
          → IsOrderly Accepted t × Inv t.world
      from (u, true) g again k = again u g.0 g.1 k
      from (u, false) g again k = let q : u ≡ t = ground arith in rw q at g

  -- The conversation over any stream ends, in an orderly state: no sender before the greeting, no
  -- recipient before a sender, at most fifty recipients, and all of them accepted for that sender.
  -- A property of the handler's state that every check of a recipient keeps, and that the handling
  -- of a deliverable envelope keeps, holds at the end if it holds at the beginning. A deliverable
  -- envelope has between one and fifty recipients, each accepted for its sender, and a payload of
  -- at most the configured size.
  pub handle_session-IsOrderly :
      (w : W) (stream : Bytes)
      → Inv w
      → (s : Session W) × (handle_session handler config w stream ≡ some s)
        × IsOrderly Accepted s
        × Inv s.world
  unfolding handle_session
  handle_session-IsOrderly w stream i =
      let (s, e) = handle_session_total handler config w stream in
      let g =
        run-Good _ (start handler config w (split_inclusive b'\n' stream))
          (IsOrderly-empty _ refl (λ h. refl)) i e in
      (s, e, g.0, g.1)
