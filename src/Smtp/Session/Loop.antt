-- ===== src/Smtp/Session/Loop.antt =====
-- The conversation ends: every round of the loop reads at least one line.
use weiterleitung.Prelude.{
  ℕ, zero, suc, ◌+◌, ap, ◌≤◌, ◌<◌, ◌≡◌, refl, Bool, true, false, length, List, [], ◌∷◌, Option,
  none, some, Result, ok, err, arith,
}
use weiterleitung.Text.{Text, Bytes, lit}
use weiterleitung.Text.Split.{split_inclusive}
use weiterleitung.Text.Utf8.{from_utf8}
use weiterleitung.Smtp.Session.{
  MailHandler, SessionConfig, Session, Verb, mail, rcpt, payload, RecipientDecision, accept, reject,
  say, set_sender, decide, add_recipient, received, read_data, run_verb, run_line, turn, go_on, run,
  handle_session, parse_address_argument,
}
use weiterleitung.Smtp.Session.Payload.{read_data-length}

module _ {W : Type 0} (handler : MailHandler W) (config : SessionConfig) where
  set_sender-pending : (o : Option Text) (s : Session W) → (set_sender o s).pending ≡ s.pending
  set_sender-pending none s = refl
  set_sender-pending (some a) s = refl

  decide-pending :
      (address : Text) (d : RecipientDecision × W) (s : Session W)
      → (decide address d s).pending ≡ s.pending
  decide-pending address (accept, w) s = refl
  decide-pending address (reject r, w) s = refl

  add_recipient-pending :
      (o : Option Text) (s : Session W) → (add_recipient handler o s).pending ≡ s.pending
  add_recipient-pending none s = refl
  add_recipient-pending (some a) s = decide-pending a _ s

  received-pending :
      (r : Result Text Bytes × List Bytes) (s : Session W) → (received handler r s).pending ≡ r.1
  received-pending (ok body, rest) s = refl
  received-pending (err reply, rest) s = refl

  -- No command puts lines back.
  run_verb-pending :
      (v : Verb) (rest : Text) (s : Session W)
      → length (run_verb handler config v rest s).0.pending ≤ length s.pending
  unfolding run_verb
  run_verb-pending mail rest s =
      ground (arith, set_sender-pending (parse_address_argument rest (lit "FROM")) s)
  run_verb-pending rcpt rest s =
      ground (arith, add_recipient-pending (parse_address_argument rest (lit "TO")) s)
  run_verb-pending payload rest s = ground (
    arith,
    received-pending (read_data config.max_message_size s.pending)
        (say (lit "354 End data with <CR><LF>.<CR><LF>") s),
    read_data-length config.max_message_size s.pending,
  )
  run_verb-pending _ rest s = omega arith

  turn-pending :
      (line : Bytes) (rest : List Bytes) (s : Session W)
      → length (turn handler config (line ∷ rest) s).0.pending ≤ length rest
  unfolding turn run_line
  turn-pending line rest s = from (from_utf8 line)
    where
      from :
          (o : Option Text)
          → length (run_line handler config o (record s { pending = rest })).0.pending ≤ length rest
      from none = omega arith
      from (some l) = run_verb-pending _ _ _

  run-total :
      (fuel : ℕ) (s : Session W)
      → length s.pending < fuel
      → (t : Session W) × (run handler config fuel s ≡ some t)
  unfolding run
  run-total zero s h = elim h [ ]
  run-total (suc fuel) s h = step s.pending refl (λ t. run-total fuel t)
    where
      finish :
          (p : Session W × Bool)
          → ((p.1 ≡ true) → length p.0.pending < fuel)
          → ((t : Session W)
              → length t.pending < fuel
              → (u : Session W) × (run handler config fuel t ≡ some u))
          → (u : Session W) × (go_on handler config (λ t. run handler config fuel t) p ≡ some u)
      finish (t, true) k again = again t (k refl)
      finish (t, false) k again = (t, refl)

      step :
          (lines : List Bytes)
          → lines ≡ s.pending
          → ((t : Session W)
              → length t.pending < fuel
              → (u : Session W) × (run handler config fuel t ≡ some u))
          → (u : Session W) × (go_on handler config
                (λ t. run handler config fuel t)
                (turn handler config lines s)
              ≡ some u)
      step [] e again = (s, unfold turn in refl)
      step (l ∷ ls) e again =
          finish (turn handler config (l ∷ ls) s)
            (λ q. omega (arith, turn-pending l ls s, ap length e)) again

  -- Over every stream of bytes the conversation comes to an end.
  pub handle_session_total :
      (w : W) (stream : Bytes) → (s : Session W) × (handle_session handler config w stream ≡ some s)
  unfolding handle_session
  handle_session_total w stream =
      run-total (length (split_inclusive b'\n' stream) + 1) _ (omega arith)
