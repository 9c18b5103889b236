-- ===== src/Smtp/Router/Closed.antt =====
-- The server is no open relay: what it queues goes to a mailbox or to a contact of its tables, over
-- whole conversations.
pub mod Growth
use weiterleitung.Prelude.{
  ◌≡◌, refl, ◌∙◌, sym, ap, subst, true, List, [], ◌∷◌, ◌++◌, In, In-append_left, head, later,
  Option, none, some, Result, ok, err, arith, ◌⊎◌, inl, inr,
}
use weiterleitung.Text.{Text, Bytes, Unicode}
use weiterleitung.Configuration.{owns_domain}
use weiterleitung.Domain.EmailAddress.{EmailAddress, parse, normalised}
use weiterleitung.Database.{Db, World, Mailbox, Contact, OutboxRow, AliasWithMailbox}
use weiterleitung.Database.Exec.{Exec, pure, fail, ◌>>=◌, map_err, attempt, execute}
use weiterleitung.Database.Frame.{
  Steps, IsFrame, Steps-bind, Steps-pure, Steps-fail, Steps-lift, Steps-attempt, Steps-select,
  Steps-execute, Steps-new_uuid, Steps-now, Steps-map_err, Steps-run, >>=-intro, select-eq-ok,
  map_err-eq-ok,
}
use weiterleitung.Alias.{alias_at, find_alias_by_address}
use weiterleitung.Contact
use weiterleitung.Delivery.Queue.{NewOutboundMessage, enqueue, write_file, insert_row}
use weiterleitung.Delivery.Queue.Enqueue.{insert_row-eq-ok}
use weiterleitung.Smtp.Session.{Envelope, Session, SessionConfig, accept, handle_session}
use weiterleitung.Smtp.Session.Invariant.{IsOrderly, handle_session-IsOrderly}
use weiterleitung.Smtp.Router.{
  AliasRouter, Route, to_mailbox, to_contact, route, or_vanished, forward_to_mailbox, send_reply,
  dispatch, not_routable, handle_one, handle_all, handle, verify_recipient, mail_handler,
}
use weiterleitung.Smtp.Router.Authority.{
  Grants, to_alias, through_contact, alias_at_sound, route-IsAuthorised,
}
use weiterleitung.Smtp.Router.Quiet.{
  NoMail, NoMail-IsFrame, record_alias_activity-NoMail, route-NoMail, verify_recipient-NoMail,
  verify_recipient-accept,
}
use weiterleitung.Smtp.Router.Queued.{count_reply-NoMail}
use weiterleitung.Smtp.Router.Queued.Contacts.{Steps-get_or_create_contact}
use Growth.{
  IsKnown, AllKnown, Adds, Adds-IsFrame, Steps-quiet, AllKnown-Adds, AllKnown-NoMail, Steps-enqueue,
  Steps-insert_contact,
}

-- The target of a granted route, where it is a contact, is stored.
KnownTarget : Db → Route → Type 0
KnownTarget db (to_mailbox alias_id alias) = Unit
KnownTarget db (to_contact contact_id alias contact_email) = IsKnown db contact_email

Grants-KnownTarget :
    (db : Db) (from key : Text) (t : Route) → Grants db from key t → KnownTarget db t
unfolding KnownTarget
Grants-KnownTarget db from key _ (to_alias r row e on) = tt
Grants-KnownTarget db from key _ (through_contact c row e on own) =
    inr (c.contact, row.contact_stored, refl)

module _ ⦃u : Unicode⦄ where
  Steps-send_reply :
      (r : AliasRouter) (contact_id alias contact_email : Text) (envelope : Envelope)
      → Steps (Adds contact_email) (send_reply r contact_id alias contact_email envelope)
  unfolding send_reply find_alias_by_address
  Steps-send_reply r contact_id alias contact_email envelope =
      let frame = Adds-IsFrame contact_email in
      Steps-bind frame _ _ (Steps-lift frame _) (λ a.
        Steps-bind frame _ _ (Steps-select frame _) (λ o.
          Steps-bind frame _ _ (Steps-enqueue r.mail_dir _)
            (λ id. Steps-quiet contact_email _ (count_reply-NoMail _))))

  Steps-or_vanished :
      (alias : Text) (o : Option AliasWithMailbox) → Steps NoMail (or_vanished alias o)
  Steps-or_vanished alias none = Steps-fail NoMail-IsFrame _
  Steps-or_vanished alias (some a) = Steps-pure NoMail-IsFrame _

  or_vanished-eq-ok :
      (alias : Text) (o : Option AliasWithMailbox) (w : World) {a : AliasWithMailbox} {v : World}
      → or_vanished alias o w ≡ (ok a, v)
      → (o ≡ some a) × (v ≡ w)
  unfolding fail pure
  or_vanished-eq-ok alias none w h = cc
  or_vanished-eq-ok alias (some a) w h = ground arith

  forward_to_mailbox-AllKnown :
      (r : AliasRouter) (alias_id alias : Text) (envelope : Envelope) (w : World)
      → AllKnown w.db
      → AllKnown (forward_to_mailbox r alias_id alias envelope w).1.db
  unfolding forward_to_mailbox find_alias_by_address
  forward_to_mailbox-AllKnown r alias_id alias envelope w k =
      >>=-intro (λ v. AllKnown v.db) _ _ w
        (λ address w1 e1.
          let k1 =
            AllKnown-NoMail w w1 (Steps-run (Steps-lift NoMail-IsFrame (parse alias)) w e1) k in
          >>=-intro (λ v. AllKnown v.db) _ _ w1
            (λ o w2 e2.
              let k2 =
                AllKnown-NoMail w1 w2
                  (Steps-run (Steps-select NoMail-IsFrame (alias_at (normalised address))) w1 e2)
                  k1 in
              >>=-intro (λ v. AllKnown v.db) _ _ w2
                (λ a w3 e3.
                  let k3 = AllKnown-NoMail w2 w3 (Steps-run (Steps-or_vanished alias o) w2 e3) k2 in
                  let (fs, q, s) = select-eq-ok (alias_at (normalised address)) w1 e2 in
                  let (p, t) = or_vanished-eq-ok alias o w2 e3 in
                  let here : alias_at (normalised address) w3.db ≡ some a =
                    ap (λ (x : World). alias_at (normalised address) x.db) (t ∙ s) ∙ sym q ∙ p in
                  let row = (alias_at_sound (normalised address) w3.db here).0 in
                  let frame = Adds-IsFrame a.mailbox_email in
                  AllKnown-Adds a.mailbox_email w3 _
                    (inl (row.mailbox, row.mailbox_stored, sym row.forwards_to))
                    ((Steps-bind frame _ _ (Steps-lift frame _) (λ sender.
                        Steps-bind frame _ _
                          (Steps-get_or_create_contact frame (Steps-insert_contact a.mailbox_email)
                            alias_id sender _ _ _)
                          (λ contact. Steps-bind frame _ _ (Steps-enqueue r.mail_dir _) (λ id.
                            Steps-quiet a.mailbox_email _
                              (record_alias_activity-NoMail alias_id _))))).at
                      w3)
                    k3)
                (λ x w3 e3. AllKnown-NoMail w2 w3 (Steps-run (Steps-or_vanished alias o) w2 e3) k2))
            (λ x w2 e2.
              AllKnown-NoMail w1 w2
                (Steps-run (Steps-select NoMail-IsFrame (alias_at (normalised address))) w1 e2) k1))
        (λ x w1 e1.
          AllKnown-NoMail w w1 (Steps-run (Steps-lift NoMail-IsFrame (parse alias)) w e1) k)

  dispatch-AllKnown :
      (r : AliasRouter) (envelope : Envelope) (t : Route) (w : World)
      → KnownTarget w.db t
      → AllKnown w.db
      → AllKnown (dispatch r envelope t w).1.db
  unfolding KnownTarget
  dispatch-AllKnown r envelope (to_mailbox alias_id alias) w i k =
      forward_to_mailbox-AllKnown r alias_id alias envelope w k
  dispatch-AllKnown r envelope (to_contact contact_id alias contact_email) w i k =
      AllKnown-Adds contact_email w _ i
        ((Steps-send_reply r contact_id alias contact_email envelope).at w) k

  handle_one-AllKnown :
      (r : AliasRouter) (envelope : Envelope) (recipient : Text) (w : World)
      → AllKnown w.db
      → AllKnown (handle_one r envelope recipient w).1.db
  unfolding handle_one map_err
  handle_one-AllKnown r envelope recipient w k =
      let routed = map_err (not_routable recipient) (route r envelope.mail_from recipient) in
      let quiet =
        Steps-map_err (not_routable recipient) _ (route-NoMail r envelope.mail_from recipient) in
      >>=-intro (λ v. AllKnown v.db) routed _ w
        (λ t u e.
          let (granted, same, files) =
            route-IsAuthorised r envelope.mail_from recipient w
              (map_err-eq-ok (not_routable recipient) (route r envelope.mail_from recipient) w e) in
          let target =
            subst (λ d. KnownTarget d t) (sym same)
              (Grants-KnownTarget w.db _ _ t granted.grants) in
          dispatch-AllKnown r envelope t u target (AllKnown-NoMail w u (Steps-run quiet w e) k))
        (λ x u e. AllKnown-NoMail w u (Steps-run quiet w e) k)

  handle_all-AllKnown :
      (r : AliasRouter) (envelope : Envelope) (recipients : List Text) (w : World)
      → AllKnown w.db
      → AllKnown (handle_all r envelope recipients w).1.db
  unfolding handle_all pure
  handle_all-AllKnown r envelope [] w k = k
  handle_all-AllKnown r envelope (recipient ∷ rest) w k =
      let one = handle_one-AllKnown r envelope recipient w k in
      >>=-intro (λ v. AllKnown v.db) (handle_one r envelope recipient)
        (λ _. handle_all r envelope rest) w
        (λ t u e. handle_all-AllKnown r envelope rest u (subst (λ p. AllKnown p.1.db) e one))
        (λ x u e. subst (λ p. AllKnown p.1.db) e one)

  -- Where every row of the outbox goes to a stored mailbox or to a stored contact, that is so after
  -- an envelope has been handled, whether the handling succeeds or fails on the way.
  pub handle-AllKnown :
      (r : AliasRouter) (envelope : Envelope) (w : World)
      → AllKnown w.db
      → AllKnown (handle r envelope w).1.db
  unfolding handle
  handle-AllKnown r envelope w k = handle_all-AllKnown r envelope envelope.rcpt_to w k

  -- A recipient that the router is responsible for.
  abbrev pub IsOwn : AliasRouter → Text → Text → Type 0
  IsOwn r mail_from recipient =
      (address : EmailAddress) × (parse recipient ≡ ok address)
      × (owns_domain r.aliases address.domain ≡ true)

  -- The server is no open relay: over every stream of bytes the conversation with the router
  -- ends, with recipients in the configured domains alone, and where every row of the outbox went
  -- to a stored mailbox or to a stored contact before it, that is so after it.
  pub mail_handler-AllKnown :
      (r : AliasRouter) (config : SessionConfig) (w : World) (stream : Bytes)
      → AllKnown w.db
      → (s : Session World) × (handle_session (mail_handler r) config w stream ≡ some s)
        × IsOrderly (IsOwn r) s
        × AllKnown s.world.db
  unfolding mail_handler
  mail_handler-AllKnown r config w stream k =
      handle_session-IsOrderly (mail_handler r) config (IsOwn r) (λ v. AllKnown v.db)
        (λ from to v i h.
          let after = (verify_recipient r from to v).1 in
          let (t, a) = verify_recipient-accept r from to v {v = after} (ap (λ d. (d, after)) h) in
          (a.address, a.parsed, a.owned))
        (λ from to v i. AllKnown-NoMail v _ (verify_recipient-NoMail r from to v) i)
        (λ e v d i. handle-AllKnown r e v i) w stream k
