-- ===== src/Consistency/Mail.antt =====
-- The SMTP server and the worker keep the tables consistent.
use weiterleitung.Prelude.{ℕ, List, [], ◌∷◌, Option, none, some, Result, ok, err, not}
use weiterleitung.Text.{Text, Bytes, Unicode, eq_ignore_ascii_case}
use weiterleitung.Text.Trim.{trim}
use weiterleitung.Domain.EmailAddress.{EmailAddress}
use weiterleitung.Database.{World, AliasWithMailbox, ContactWithAlias, QueuedMessage}
use weiterleitung.Database.Exec.{Exec, attempt}
use weiterleitung.Database.Frame.{
  Steps, Steps-pure, Steps-fail, Steps-lift, Steps-if, Steps-map_err, Steps-select, Steps-attempt,
}
use weiterleitung.Alias.{find_alias_by_address}
use weiterleitung.Contact.{find_contact_by_reverse_alias}
use weiterleitung.Delivery.Worker.{
  Sender, batch_size, read_spool, sent, deliver_raw, deliver, deliver_all, claimed, drain_outbox,
}
use weiterleitung.Delivery.Queue.{claim_due}
use weiterleitung.Smtp.Session.{Envelope}
use weiterleitung.Smtp.Router.{
  AliasRouter, Route, to_mailbox, to_contact, mailbox_only, alias_disabled, route_reply, ignore,
  route_alias, or_alias, route_owned, route, or_vanished, forward_to_mailbox, count_reply,
  send_reply, decision, verify_recipient, dispatch, handle_one, handle_all, handle,
}
use weiterleitung.Smtp.Router.Queued.Contacts.{Steps-get_or_create_contact}
use weiterleitung.Consistency.{Keeps, Keeps-IsFrame}
use weiterleitung.Consistency.Inserts.{insert_contact-IsConsistent}
use weiterleitung.Consistency.Handlers.{
  step, record_alias_activity-Keeps, enqueue-Keeps, claim_due-Keeps, mark_delivered-Keeps,
  mark_attempt_failed-Keeps,
}

module _ ⦃u : Unicode⦄ where
  route_reply-Keeps : (from : Text) (c : ContactWithAlias) → Steps Keeps (route_reply from c)
  unfolding route_reply
  route_reply-Keeps from c =
      Steps-if Keeps-IsFrame (not (eq_ignore_ascii_case c.mailbox_email (trim from))) _ _
        (Steps-fail Keeps-IsFrame mailbox_only)
        (Steps-if Keeps-IsFrame (not c.alias_enabled) _ _ (Steps-fail Keeps-IsFrame alias_disabled)
          (Steps-pure Keeps-IsFrame
            (to_contact c.contact.contact_id c.alias_address c.contact.email)))

  ignore-Keeps : {A : Type 0} (m : Exec Text A) → Steps Keeps m → Steps Keeps (ignore m)
  unfolding ignore
  ignore-Keeps m h = record { at = h.at }

  route_alias-Keeps :
      (recipient : EmailAddress) (o : Option AliasWithMailbox)
      → Steps Keeps (route_alias recipient o)
  unfolding route_alias
  route_alias-Keeps recipient none = Steps-fail Keeps-IsFrame _
  route_alias-Keeps recipient (some a) =
      Steps-if Keeps-IsFrame _ _ _
        (step (ignore-Keeps _ (record_alias_activity-Keeps _ _)) (λ _. Steps-fail Keeps-IsFrame _))
        (Steps-pure Keeps-IsFrame _)

  or_alias-Keeps :
      (from : Text) (recipient : EmailAddress) (o : Option ContactWithAlias)
      (other : Exec Text Route)
      → Steps Keeps other
      → Steps Keeps (or_alias from recipient o other)
  or_alias-Keeps from recipient none other h = h
  or_alias-Keeps from recipient (some c) other h = route_reply-Keeps from c

  route-Keeps : (r : AliasRouter) (from to : Text) → Steps Keeps (route r from to)
  unfolding route route_owned find_contact_by_reverse_alias find_alias_by_address
  route-Keeps r from to = step (Steps-lift Keeps-IsFrame _) (λ address.
      Steps-if Keeps-IsFrame _ _ _ (Steps-fail Keeps-IsFrame _) (
        step (Steps-map_err _ _ (Steps-select Keeps-IsFrame _)) (λ c.
          or_alias-Keeps from address c _
            (step (Steps-map_err _ _ (Steps-select Keeps-IsFrame _)) (route_alias-Keeps address)))))

  decided : (w : World) (p : Result Text Route × World) → Keeps w p.1 → Keeps w (decision p).1
  decided w (ok t, v) h = h
  decided w (err e, v) h = h

  pub verify_recipient-Keeps :
      (r : AliasRouter) (from to : Text) (w : World) → Keeps w (verify_recipient r from to w).1
  unfolding verify_recipient
  verify_recipient-Keeps r from to w = decided w (route r from to w) ((route-Keeps r from to).at w)

  or_vanished-Keeps :
      (alias : Text) (o : Option AliasWithMailbox) → Steps Keeps (or_vanished alias o)
  or_vanished-Keeps alias none = Steps-fail Keeps-IsFrame _
  or_vanished-Keeps alias (some a) = Steps-pure Keeps-IsFrame _

  count_reply-Keeps : (o : Option Text) → Steps Keeps (count_reply o)
  count_reply-Keeps none = Steps-pure Keeps-IsFrame _
  count_reply-Keeps (some id) = record_alias_activity-Keeps id _

  dispatch-Keeps :
      (r : AliasRouter) (envelope : Envelope) (t : Route) → Steps Keeps (dispatch r envelope t)
  unfolding forward_to_mailbox send_reply find_alias_by_address
  dispatch-Keeps r envelope (to_mailbox alias_id alias) = step (Steps-lift Keeps-IsFrame _) (λ _.
      step (Steps-select Keeps-IsFrame _) (λ o. step (or_vanished-Keeps alias o) (λ _.
        step (Steps-lift Keeps-IsFrame _) (λ sender.
          step
            (Steps-get_or_create_contact Keeps-IsFrame
              (λ c w db e k. insert_contact-IsConsistent c w.db e k) _ sender _ _ _)
            (λ _.
              step (enqueue-Keeps r.mail_dir _) (λ _. record_alias_activity-Keeps alias_id _))))))
  dispatch-Keeps r envelope (to_contact contact_id alias contact_email) =
      step (Steps-lift Keeps-IsFrame _) (λ _.
        step (Steps-select Keeps-IsFrame _)
          (λ o. step (enqueue-Keeps r.mail_dir _) (λ _. count_reply-Keeps _)))

  handle_all-Keeps :
      (r : AliasRouter) (envelope : Envelope) (to : List Text)
      → Steps Keeps (handle_all r envelope to)
  unfolding handle_all handle_one
  handle_all-Keeps r envelope [] = Steps-pure Keeps-IsFrame _
  handle_all-Keeps r envelope (to ∷ rest) =
      step
        (step (Steps-map_err _ _ (route-Keeps r envelope.mail_from to))
          (λ t. Steps-map_err _ _ (dispatch-Keeps r envelope t)))
        (λ _. handle_all-Keeps r envelope rest)

  pub handle-Keeps : (r : AliasRouter) (envelope : Envelope) → Steps Keeps (handle r envelope)
  unfolding handle
  handle-Keeps r envelope = handle_all-Keeps r envelope envelope.rcpt_to

sent-Keeps :
    (id : Text) (attempts max : ℕ) (answer : Result Text (Unit {0}))
    → Steps Keeps (sent id attempts max answer)
sent-Keeps id attempts max (ok t) = mark_delivered-Keeps id
sent-Keeps id attempts max (err e) = mark_attempt_failed-Keeps id attempts max e

deliver_raw-Keeps :
    (sender : Sender) (max : ℕ) (m : QueuedMessage) (raw : Result Text Bytes)
    → Steps Keeps (deliver_raw sender max m raw)
deliver_raw-Keeps sender max m (ok raw) = record {
  at = λ w.
      (sent-Keeps m.message_id m.attempts max (sender w m.envelope_from m.envelope_to raw)).at w;
}
deliver_raw-Keeps sender max m (err e) = mark_attempt_failed-Keeps m.message_id max max _

deliver-Keeps : (sender : Sender) (max : ℕ) (m : QueuedMessage) → Steps Keeps (deliver sender max m)
unfolding deliver read_spool
deliver-Keeps sender max m = record {
  at = λ w c.
      (deliver_raw-Keeps sender max m (read_spool m.raw_path w).0).at (attempt w).1
        ((Steps-attempt Keeps-IsFrame).at w c);
}

deliver_all-Keeps :
    (sender : Sender) (max : ℕ) (ms : List QueuedMessage) (w : World)
    → Keeps w (deliver_all sender max ms w)
unfolding deliver_all
deliver_all-Keeps sender max [] w c = c
deliver_all-Keeps sender max (m ∷ ms) w c =
    deliver_all-Keeps sender max ms _ ((deliver-Keeps sender max m).at w c)

claimed-Keeps :
    (sender : Sender) (max : ℕ) (w : World) (p : Result Text (List QueuedMessage) × World)
    → Keeps w p.1
    → Keeps w (claimed sender max p).1
claimed-Keeps sender max w (ok ms, v) h c = deliver_all-Keeps sender max ms v (h c)
claimed-Keeps sender max w (err e, v) h c = h c

pub drain_outbox-Keeps : (sender : Sender) (max : ℕ) → Steps Keeps (drain_outbox sender max)
unfolding drain_outbox
drain_outbox-Keeps sender max = record {
  at = λ w. claimed-Keeps sender max w (claim_due batch_size w) ((claim_due-Keeps batch_size).at w);
}
