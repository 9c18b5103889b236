-- ===== src/Smtp/Router/Quiet.antt =====
-- What the check of a recipient, and the activity of an alias, leave alone.
use weiterleitung.Prelude.{
  ◌≡◌, refl, ◌∙◌, sym, ap, subst, not, Option, none, some, Result, ok, err, arith,
}
use weiterleitung.Text.{Text, Unicode}
use weiterleitung.Domain.EmailAddress.{EmailAddress}
use weiterleitung.Database.{Db, World, Alias, AliasWithMailbox, ContactWithAlias}
use weiterleitung.Database.Exec.{Exec, fail, ◌>>=◌, map_err}
use weiterleitung.Database.Frame.{
  Steps, IsFrame, Steps-bind, Steps-pure, Steps-fail, Steps-lift, Steps-if, Steps-select,
  Steps-execute, Steps-now, Steps-map_err,
}
use weiterleitung.Alias.{
  AliasCounter, update_row, bump, record_alias_activity, blocked, find_alias_by_address,
}
use weiterleitung.Contact.{find_contact_by_reverse_alias}
use weiterleitung.Smtp.Session.{accept}
use weiterleitung.Smtp.Router.{
  AliasRouter, Route, route_reply, route_alias, ignore, or_alias, route_owned, route, decision,
  verify_recipient, alias_disabled, lookup_failure,
}
use weiterleitung.Smtp.Router.Authority.{IsAuthorised, route-IsAuthorised}

-- The outbox, the spool, the contacts, the mailboxes and the clock are the same.
pub record NoMail (w v : World) : Type 0 where
  pub outbox : v.db.outbox ≡ w.db.outbox
  pub spool : v.spool ≡ w.spool
  pub contacts : v.db.contacts ≡ w.db.contacts
  pub mailboxes : v.db.mailboxes ≡ w.db.mailboxes
  pub clock : v.clock ≡ w.clock

no_change : (w v : World) → v.db ≡ w.db → v.spool ≡ w.spool → v.clock ≡ w.clock → NoMail w v
no_change w v d s c = record {
  outbox = ap (λ (x : Db). x.outbox) d;
  spool = s;
  contacts = ap (λ (x : Db). x.contacts) d;
  mailboxes = ap (λ (x : Db). x.mailboxes) d;
  clock = c;
}

pub NoMail-IsFrame : IsFrame NoMail
NoMail-IsFrame = record {
  same = λ w. no_change w w refl refl refl;
  trans = λ a b c h k. record {
    outbox = k.outbox ∙ h.outbox;
    spool = k.spool ∙ h.spool;
    contacts = k.contacts ∙ h.contacts;
    mailboxes = k.mailboxes ∙ h.mailboxes;
    clock = k.clock ∙ h.clock;
  };
  faults = λ w fs. no_change w _ refl refl refl;
  draw = λ w n. no_change w _ refl refl refl;
}

update_row-NoMail :
    (id : Text) (f : Alias → Alias) (w : World) (db : Db)
    → update_row id f w.db ≡ ok db
    → NoMail w (record w { db = db })
update_row-NoMail id f w db h = record {
  outbox = ground arith;
  spool = refl;
  contacts = ground arith;
  mailboxes = ground arith;
  clock = refl;
}

pub record_alias_activity-NoMail :
    (id : Text) (counter : AliasCounter) → Steps NoMail (record_alias_activity id counter)
unfolding record_alias_activity
record_alias_activity-NoMail id counter =
    Steps-bind NoMail-IsFrame _ _ (Steps-now NoMail-IsFrame)
      (λ time. Steps-execute NoMail-IsFrame _ (update_row-NoMail id (bump counter time)))

ignore-Steps :
    {A : Type 0} {R : World → World → Type 0} (m : Exec Text A) → Steps R m → Steps R (ignore m)
unfolding ignore
ignore-Steps m s = record { at = s.at }

route_alias-NoMail :
    (address : EmailAddress) (o : Option AliasWithMailbox) → Steps NoMail (route_alias address o)
unfolding route_alias
route_alias-NoMail address none = Steps-fail NoMail-IsFrame _
route_alias-NoMail address (some a) =
    Steps-if NoMail-IsFrame (not a.alias.enabled) _ _
      (Steps-bind NoMail-IsFrame (ignore (record_alias_activity a.alias.alias_id blocked))
        (λ _. fail alias_disabled)
        (ignore-Steps _ (record_alias_activity-NoMail a.alias.alias_id blocked))
        (λ _. Steps-fail NoMail-IsFrame _))
      (Steps-pure NoMail-IsFrame _)

route_reply-NoMail : (f : Text) (c : ContactWithAlias) → Steps NoMail (route_reply f c)
unfolding route_reply
route_reply-NoMail f c = Steps-if NoMail-IsFrame (not _) _ _ (Steps-fail NoMail-IsFrame _) (
    Steps-if NoMail-IsFrame (not c.alias_enabled) _ _ (Steps-fail NoMail-IsFrame _)
      (Steps-pure NoMail-IsFrame _))

module _ ⦃u : Unicode⦄ where
  or_alias-NoMail :
      (f : Text) (address : EmailAddress) (o : Option ContactWithAlias) (m : Exec Text Route)
      → Steps NoMail m
      → Steps NoMail (or_alias f address o m)
  or_alias-NoMail f address none m s = s
  or_alias-NoMail f address (some c) m s = route_reply-NoMail f c

  found_alias-NoMail :
      (address : EmailAddress)
      → Steps NoMail (do
        alias ← map_err (λ e. lookup_failure) (find_alias_by_address address)
        route_alias address alias)
  unfolding find_alias_by_address
  found_alias-NoMail address =
      Steps-bind NoMail-IsFrame _ _ (Steps-map_err _ _ (Steps-select NoMail-IsFrame _))
        (route_alias-NoMail address)

  route_owned-NoMail : (f : Text) (address : EmailAddress) → Steps NoMail (route_owned f address)
  unfolding route_owned find_contact_by_reverse_alias
  route_owned-NoMail f address =
      Steps-bind NoMail-IsFrame _ _ (Steps-map_err _ _ (Steps-select NoMail-IsFrame _))
        (λ c. or_alias-NoMail f address c _ (found_alias-NoMail address))

  pub route-NoMail : (r : AliasRouter) (f rcpt : Text) → Steps NoMail (route r f rcpt)
  unfolding route
  route-NoMail r f rcpt = Steps-bind NoMail-IsFrame _ _ (Steps-lift NoMail-IsFrame _) (λ a.
      Steps-if NoMail-IsFrame (not _) _ _ (Steps-fail NoMail-IsFrame _) (route_owned-NoMail f a))

  decision-world : (p : Result Text Route × World) → (decision p).1 ≡ p.1
  decision-world (ok t, w) = refl
  decision-world (err e, w) = refl

  -- Whatever the answer to `RCPT TO`, nothing is queued or written to the spool, and the contacts,
  -- the mailboxes and the clock stay as they are.
  pub verify_recipient-NoMail :
      (r : AliasRouter) (mail_from recipient : Text) (w : World)
      → NoMail w (verify_recipient r mail_from recipient w).1
  unfolding verify_recipient
  verify_recipient-NoMail r f rcpt w =
      subst (NoMail w) (sym (decision-world (route r f rcpt w))) ((route-NoMail r f rcpt).at w)

  decision-accept :
      (p : Result Text Route × World) {v : World}
      → decision p ≡ (accept, v)
      → (t : Route) × (p ≡ (ok t, v))
  decision-accept (ok t, w) h = (t, ground arith)
  decision-accept (err e, w) h = cc

  -- A recipient is accepted only with a route that the tables authorise.
  pub verify_recipient-accept :
      (r : AliasRouter) (mail_from recipient : Text) (w : World) {v : World}
      → verify_recipient r mail_from recipient w ≡ (accept, v)
      → (t : Route) × IsAuthorised r w.db mail_from recipient t
  unfolding verify_recipient
  verify_recipient-accept r f rcpt w h =
      let (t, e) = decision-accept (route r f rcpt w) h in (t, (route-IsAuthorised r f rcpt w e).0)
