-- ===== src/Smtp/Router/Queued.antt =====
-- What the router queues for an accepted message.
pub mod Contacts
pub mod Forwarded
use weiterleitung.Prelude.{
  ℕ, ◌+◌, ◌≡◌, refl, ◌∙◌, sym, ap, subst, Bool, true, false, List, [], ◌∷◌, ◌++◌, append_assoc,
  length, length-append, Option, none, some, Result, ok, err, arith,
}
use weiterleitung.Text.{Text, Bytes, Unicode}
use weiterleitung.Domain.EmailAddress.{parse, normalised, to_string}
use weiterleitung.Configuration.{default_domain}
use weiterleitung.Database.{Db, World, OutboxRow, AliasWithMailbox, Status, pending}
use weiterleitung.Database.Exec.{Exec, pure, ◌>>=◌, map_err, fail}
use weiterleitung.Database.Frame.{>>=-eq-ok, map_err-eq-ok, Steps, Steps-run, Steps-pure}
use weiterleitung.Database.Run.{lift_ok, select_ok, unmap_ok, pure_ok}
use weiterleitung.Alias.{record_alias_activity, forwarded, alias_at, find_alias_by_address}
use weiterleitung.Contact.{get_or_create_contact}
use weiterleitung.Delivery.Queue.{NewOutboundMessage, enqueue, new_row, spool_path}
use weiterleitung.Delivery.Queue.Enqueue.{IsEnqueued, enqueue-IsEnqueued}
use weiterleitung.Smtp.Rewrite.{
  split_headers_body, header_value, rewrite_for_forward, rewrite_for_reply, ForwardRewrite,
}
use weiterleitung.Smtp.Session.{Envelope}
use weiterleitung.Smtp.Router.{
  AliasRouter, Route, to_mailbox, to_contact, route, or_vanished, forward_to_mailbox, send_reply,
  id_of, count_reply, dispatch, not_routable, handle_one, handle_all, handle,
}
use weiterleitung.Smtp.Router.Authority.{AliasRow, alias_at_sound, IsAuthorised, route-IsAuthorised}
use weiterleitung.Smtp.Router.Quiet.{
  NoMail, NoMail-IsFrame, record_alias_activity-NoMail, route-NoMail,
}
use weiterleitung.Contact.Stable.{get_or_create_contact-IsStored}
use Contacts.{KeepsQueue, get_or_create_contact-KeepsQueue}
use Forwarded.{IsForwarded, IsForwarded-db, IsStored-contacts}

-- One row more, pending, not tried yet and due at once, with its raw message in the spool.
pub record IsQueued (row : OutboxRow) (raw : Bytes) (w v : World) : Type 0 where
  pub outbox : v.db.outbox ≡ w.db.outbox ++ (row ∷ [])
  pub spool : v.spool ≡ (row.message.raw_path, raw) ∷ w.spool
  pub status : row.message.status ≡ pending
  pub attempts : row.message.attempts ≡ 0
  pub due : row.next_attempt_at ≡ w.clock

-- From worlds that agree on the queue, to worlds that agree on it.
IsQueued-between :
    (mail_dir : Text) (m : NewOutboundMessage) (id : Text) (w w' v' v : World)
    → KeepsQueue w w'
    → IsEnqueued mail_dir m id w' v'
    → NoMail v' v
    → IsQueued (new_row m id (spool_path mail_dir id) w.clock) m.raw w v
IsQueued-between mail_dir m id w w' v' v k q n = record {
  outbox =
      n.outbox
      ∙ q.outbox
      ∙ ap (λ o. o ++ (new_row m id (spool_path mail_dir id) w'.clock ∷ [])) k.outbox
      ∙ ap (λ c. w.db.outbox ++ (new_row m id (spool_path mail_dir id) c ∷ [])) k.clock;
  spool = n.spool ∙ q.spool ∙ ap (λ s. (spool_path mail_dir id, m.raw) ∷ s) k.spool;
  status = refl;
  attempts = refl;
  due = refl;
}

-- The end of a round: the message is queued, and then the alias is counted.
enqueue-then :
    (mail_dir : Text) (m : NewOutboundMessage) (k : Exec Text (Unit {0})) (w w' : World)
    {t : Unit {0}} {v : World}
    → KeepsQueue w w'
    → Steps NoMail k
    → (enqueue mail_dir m >>= λ _. k) w' ≡ (ok t, v)
    → (id : Text) × IsQueued (new_row m id (spool_path mail_dir id) w.clock) m.raw w v
      × (v.db.contacts ≡ w'.db.contacts)
enqueue-then mail_dir m k w w' {t} {v} q s h =
    let (id, u, e, h1) = >>=-eq-ok (enqueue mail_dir m) (λ _. k) w' h in
    let stored = enqueue-IsEnqueued mail_dir m w' e in
    let n = Steps-run s u h1 in
    (id, IsQueued-between mail_dir m id w w' u v q stored n, n.contacts ∙ stored.contacts)

module _ ⦃u : Unicode⦄ where
  or_vanished_ok :
      {B : Type 0} {b : B} {v : World} (alias : Text) (o : Option AliasWithMailbox)
      (f : AliasWithMailbox → Exec Text B) (w : World)
      → (or_vanished alias o >>= f) w ≡ (ok b, v)
      → (a : AliasWithMailbox) × (o ≡ some a) × (f a w ≡ (ok b, v))
  unfolding ◌>>=◌ fail pure
  or_vanished_ok alias none f w h = cc
  or_vanished_ok alias (some a) f w h = (a, refl, h)

  pub count_reply-NoMail : (o : Option Text) → Steps NoMail (count_reply o)
  count_reply-NoMail none = Steps-pure NoMail-IsFrame _
  count_reply-NoMail (some id) = record_alias_activity-NoMail id _

  -- The row goes where the route says: to the mailbox of the alias from the reverse alias of the
  -- contact, or to the contact from the alias.
  abbrev pub Addressed : World → World → Envelope → OutboxRow → Bytes → Route → Type 0
  Addressed w v envelope row raw (to_mailbox alias_id alias) =
      IsForwarded w v envelope row raw alias_id alias
  Addressed w v envelope row raw (to_contact contact_id alias contact_email) =
      (row.message.envelope_to ≡ contact_email)
      × (row.message.envelope_from ≡ alias)
      × (row.message.contact_id ≡ some contact_id)
      × (raw
          ≡ rewrite_for_reply envelope.payload
              (record { alias = alias; contact_email = contact_email }))

  pub record RoundOf (envelope : Envelope) (t : Route) (w v : World) : Type 0 where
    pub row : OutboxRow
    pub raw : Bytes
    pub queued : IsQueued row raw w v
    pub addressed : Addressed w v envelope row raw t

  send_reply-RoundOf :
      (r : AliasRouter) (contact_id alias contact_email : Text) (envelope : Envelope) (w : World)
      {t : Unit {0}} {v : World}
      → send_reply r contact_id alias contact_email envelope w ≡ (ok t, v)
      → RoundOf envelope (to_contact contact_id alias contact_email) w v
  unfolding send_reply find_alias_by_address
  send_reply-RoundOf r contact_id alias contact_email envelope w h =
      let (address, p, h1) = lift_ok (parse alias) _ w h in
      let (gs, h2) = select_ok (alias_at (normalised address)) _ w h1 in
      let o = alias_at (normalised address) w.db in
      let (id, q, k) =
        enqueue-then r.mail_dir _ (count_reply (id_of o)) w (record w { faults = gs })
          (record { outbox = refl; spool = refl; clock = refl }) (count_reply-NoMail (id_of o))
          h2 in
      record { row = _; raw = _; queued = q; addressed = (refl, refl, refl, refl) }

  forward_to_mailbox-RoundOf :
      (r : AliasRouter) (alias_id alias : Text) (envelope : Envelope) (w : World) {t : Unit {0}}
      {v : World}
      → forward_to_mailbox r alias_id alias envelope w ≡ (ok t, v)
      → RoundOf envelope (to_mailbox alias_id alias) w v
  unfolding forward_to_mailbox find_alias_by_address
  forward_to_mailbox-RoundOf r alias_id alias envelope w {v = v} h =
      let (address, p, h1) = lift_ok (parse alias) _ w h in
      let (gs, h2) = select_ok (alias_at (normalised address)) _ w h1 in
      let w1 : World = record w { faults = gs } in
      let (a, found, h3) = or_vanished_ok alias (alias_at (normalised address) w.db) _ w1 h2 in
      let (sender, s, h4) = lift_ok _ _ w1 h3 in
      let (contact, w2, e, h5) =
        >>=-eq-ok
          (get_or_create_contact alias_id sender _ r.aliases.reverse_alias_prefix
            (default_domain r.aliases))
          _ w1 h4 in
      let k =
        Steps-run
          (get_or_create_contact-KeepsQueue alias_id sender _ r.aliases.reverse_alias_prefix
            (default_domain r.aliases))
          w1 e in
      let (id, q, same) =
        enqueue-then r.mail_dir _ (record_alias_activity alias_id forwarded) w w2
          (record { outbox = k.outbox; spool = k.spool; clock = k.clock })
          (record_alias_activity-NoMail alias_id forwarded) h5 in
      record {
        row = _;
        raw = _;
        queued = q;
        addressed = record {
          address = address;
          parsed = p;
          target = a;
          target_row = (alias_at_sound (normalised address) w.db found).0;
          target_address = (alias_at_sound (normalised address) w.db found).1;
          to = refl;
          counted = refl;
          sender = sender;
          written_by = s;
          contact = contact;
          contact_row = IsStored-contacts alias_id sender contact w2.db v.db same (
              get_or_create_contact-IsStored alias_id sender _ r.aliases.reverse_alias_prefix
                (default_domain r.aliases) w1 e);
          contact_id = refl;
          from = refl;
          rewritten = refl;
        };
      }

  dispatch-RoundOf :
      (r : AliasRouter) (envelope : Envelope) (t : Route) (w : World) {x : Unit {0}} {v : World}
      → dispatch r envelope t w ≡ (ok x, v)
      → RoundOf envelope t w v
  dispatch-RoundOf r envelope (to_mailbox alias_id alias) w h =
      forward_to_mailbox-RoundOf r alias_id alias envelope w h
  dispatch-RoundOf r envelope (to_contact contact_id alias contact_email) w h =
      send_reply-RoundOf r contact_id alias contact_email envelope w h

  -- What one recipient adds: the row of a route that was authorised.
  pub record IsDispatched (r : AliasRouter) (envelope : Envelope) (recipient : Text) (w v : World)
      : Type 0 where
    pub target : Route
    pub authorised : IsAuthorised r w.db envelope.mail_from recipient target
    pub row : OutboxRow
    pub raw : Bytes
    pub queued : IsQueued row raw w v
    pub addressed : Addressed w v envelope row raw target

  Addressed-db :
      (w w' v : World) (envelope : Envelope) (row : OutboxRow) (raw : Bytes) (t : Route)
      → w'.db ≡ w.db
      → Addressed w' v envelope row raw t
      → Addressed w v envelope row raw t
  Addressed-db w w' v envelope row raw (to_mailbox alias_id alias) e h =
      IsForwarded-db w w' v envelope row raw alias_id alias e h
  Addressed-db w w' v envelope row raw (to_contact contact_id alias contact_email) e h = h

  -- A round of the router that succeeds queues exactly one message for an authorised route,
  -- pending and due at once, with its raw text in the spool. For an alias it goes to the mailbox of
  -- the alias that is stored under the route's address, from the reverse alias of the contact that
  -- is stored afterwards for the route's alias and the sender, rewritten with these; for a contact
  -- it goes to the contact from the alias, rewritten for the reply.
  pub handle_one-IsDispatched :
      (r : AliasRouter) (envelope : Envelope) (recipient : Text) (w : World) {x : Unit {0}}
      {v : World}
      → handle_one r envelope recipient w ≡ (ok x, v)
      → IsDispatched r envelope recipient w v
  unfolding handle_one
  handle_one-IsDispatched r envelope recipient w {x} {v} h =
      let (t, w1, e, h1) =
        >>=-eq-ok (map_err (not_routable recipient) (route r envelope.mail_from recipient)) _ w h in
      let found =
        map_err-eq-ok (not_routable recipient) (route r envelope.mail_from recipient) w e in
      let (granted, same, files) = route-IsAuthorised r envelope.mail_from recipient w found in
      let n = Steps-run (route-NoMail r envelope.mail_from recipient) w found in
      let round =
        dispatch-RoundOf r envelope t w1 (map_err-eq-ok _ (dispatch r envelope t) w1 h1) in
      record {
        target = t;
        authorised = granted;
        row = round.row;
        raw = round.raw;
        queued = record {
          outbox = round.queued.outbox ∙ ap (λ o. o ++ (round.row ∷ [])) n.outbox;
          spool = round.queued.spool ∙ ap (λ s. (round.row.message.raw_path, round.raw) ∷ s) files;
          status = round.queued.status;
          attempts = round.queued.attempts;
          due = round.queued.due ∙ n.clock;
        };
        addressed = Addressed-db w w1 v envelope round.row round.raw t same round.addressed;
      }

  -- The rounds of the recipients, one behind the other.
  abbrev pub AllDispatched : AliasRouter → Envelope → List Text → World → World → Type 0
  AllDispatched r envelope [] w v = v ≡ w
  AllDispatched r envelope (recipient ∷ rest) w v =
      (u : World) × IsDispatched r envelope recipient w u × AllDispatched r envelope rest u v

  handle_all-AllDispatched :
      (r : AliasRouter) (envelope : Envelope) (recipients : List Text) (w : World) {x : Unit {0}}
      {v : World}
      → handle_all r envelope recipients w ≡ (ok x, v)
      → AllDispatched r envelope recipients w v
        × (length v.db.outbox ≡ length w.db.outbox + length recipients)
  unfolding handle_all
  handle_all-AllDispatched r envelope [] w h =
      let (q, p) = pure_ok tt w h in (p, rw p (omega arith))
  handle_all-AllDispatched r envelope (recipient ∷ rest) w h =
      let (t, u, e, k) =
        >>=-eq-ok (handle_one r envelope recipient) (λ _. handle_all r envelope rest) w h in
      let one = handle_one-IsDispatched r envelope recipient w e in
      let (more, sizes) = handle_all-AllDispatched r envelope rest u k in
      let size : length u.db.outbox ≡ length w.db.outbox + 1 =
        ap length one.queued.outbox ∙ length-append w.db.outbox (one.row ∷ []) in
      ((u, one, more), omega arith)

  -- A message that the router accepts is queued once for each of its recipients, in their order,
  -- each time for a route that the tables authorised.
  pub handle-AllDispatched :
      (r : AliasRouter) (envelope : Envelope) (w : World) {x : Unit {0}} {v : World}
      → handle r envelope w ≡ (ok x, v)
      → AllDispatched r envelope envelope.rcpt_to w v
        × (length v.db.outbox ≡ length w.db.outbox + length envelope.rcpt_to)
  unfolding handle
  handle-AllDispatched r envelope w h = handle_all-AllDispatched r envelope envelope.rcpt_to w h
