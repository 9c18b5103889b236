-- ===== src/Smtp/Router/Authority.antt =====
-- Who may send through the router, and to whom: what a route that is granted says of the tables.
mod Rows
pub use Rows.{AliasRow, ContactRow, alias_at_sound, contact_at_sound}
use weiterleitung.Prelude.{
  ◌≡◌, refl, ◌∙◌, sym, ap, subst, Bool, true, false, not, if◌then◌else◌, find, find_sound, List, [],
  ◌∷◌, In, head, later, Option, none, some, Result, ok, err, arith, Bool-cases, inl, inr,
}
use weiterleitung.Text.{Text, Unicode, eq_text, eq_text_iff, eq_ignore_ascii_case}
use weiterleitung.Text.Trim.{trim}
use weiterleitung.Configuration.{owns_domain}
use weiterleitung.Domain.EmailAddress.{EmailAddress, parse, normalised}
use weiterleitung.Database.{Db, World, Mailbox, Alias, AliasWithMailbox, Contact, ContactWithAlias}
use weiterleitung.Database.Exec.{Exec, pure, fail, lift, ◌>>=◌, map_err, select}
use weiterleitung.Database.Frame.{>>=-eq-ok, map_err-eq-ok, select-eq-ok}
use weiterleitung.Alias.{
  record_alias_activity, blocked, join_mailbox, joined, has_address, alias_at,
  find_alias_by_address,
}
use weiterleitung.Contact.{join_alias, has_reverse_alias, contact_at, find_contact_by_reverse_alias}
use weiterleitung.Contact
use weiterleitung.Smtp.Router.{
  lookup_failure, relay_denied, alias_disabled, AliasRouter, Route, to_mailbox, to_contact, mapped,
  route_reply, route_alias, ignore, or_alias, route_owned, route,
}

-- What a route that is granted rests on: an enabled alias with that address, or a contact with
-- that reverse alias whose alias is enabled, and then a sender that is the alias's mailbox.
pub data Grants (db : Db) (mail_from address : Text) : Route → Type 0 where
  to_alias :
      (r : AliasWithMailbox)
      → AliasRow db r
      → r.alias.address ≡ address
      → r.alias.enabled ≡ true
      → Grants db mail_from address (to_mailbox r.alias.alias_id r.alias.address)
  through_contact :
      (c : ContactWithAlias)
      → ContactRow db c
      → c.contact.reverse_alias ≡ address
      → c.alias_enabled ≡ true
      → eq_ignore_ascii_case c.mailbox_email (trim mail_from) ≡ true
      → Grants db mail_from address
          (to_contact c.contact.contact_id c.alias_address c.contact.email)

if-fail-eq-ok :
    {A : Type 0} (b : Bool) (e : Text) (m : Exec Text A) (w : World) {a : A} {v : World}
    → (if b then fail e else m) w ≡ (ok a, v)
    → (b ≡ false) × (m w ≡ (ok a, v))
unfolding fail
if-fail-eq-ok true e m w h = cc
if-fail-eq-ok false e m w h = (refl, h)

route_reply-Grants :
    (f address : Text) (c : ContactWithAlias) (w : World) {t : Route} {v : World}
    → contact_at address w.db ≡ some c
    → route_reply f c w ≡ (ok t, v)
    → Grants w.db f address t × (v ≡ w)
unfolding route_reply pure
route_reply-Grants f address c w {t} {v} found h =
    let (own, k) = if-fail-eq-ok (not (eq_ignore_ascii_case c.mailbox_email (trim f))) _ _ w h in
    let (on, g) = if-fail-eq-ok (not c.alias_enabled) _ _ w k in
    let (row, at) = contact_at_sound address w.db found in
    let target : to_contact c.contact.contact_id c.alias_address c.contact.email ≡ t =
      ground arith in
    let granted : Grants w.db f address
        (to_contact c.contact.contact_id c.alias_address c.contact.email) =
      through_contact c row at (ground arith) (ground arith) in
    (rw target at granted, ground arith)

route_alias-Grants :
    (f : Text) (address : EmailAddress) (key : Text) (o : Option AliasWithMailbox) (w : World)
    {t : Route} {v : World}
    → alias_at key w.db ≡ o
    → route_alias address o w ≡ (ok t, v)
    → Grants w.db f key t × (v ≡ w)
unfolding route_alias pure fail
route_alias-Grants f address key none w found h = cc
route_alias-Grants f address key (some a) w {t} {v} found h = elim (Bool-cases a.alias.enabled) [
  | inl on ↦
      let k : pure (to_mailbox a.alias.alias_id a.alias.address) w ≡ (ok t, v) = rw on at h in
      let (row, at) = alias_at_sound key w.db found in
      let granted : Grants w.db f key (to_mailbox a.alias.alias_id a.alias.address) =
        to_alias a row at on in
      let target : to_mailbox a.alias.alias_id a.alias.address ≡ t = ground arith in
      (rw target at granted, ground arith)
  | inr off ↦
      let k : (ignore (record_alias_activity a.alias.alias_id blocked) >>= λ _. fail alias_disabled)
            w
          ≡ (ok t, v) =
        rw off at h in
      let (x, u, i, j) =
        >>=-eq-ok (ignore (record_alias_activity a.alias.alias_id blocked))
          (λ _. fail alias_disabled) w k in
      cc
]

-- The tables and the files after a route that is granted are those before it.
abbrev Granted : World → Text → Text → Route → World → Type 0
Granted w mail_from key t v = Grants w.db mail_from key t × (v.db ≡ w.db) × (v.spool ≡ w.spool)

Granted-after :
    (w u v : World) (f key : Text) (t : Route)
    → u.db ≡ w.db
    → u.spool ≡ w.spool
    → Granted u f key t v
    → Granted w f key t v
Granted-after w u v f key t e p g = (subst (λ d. Grants d f key t) e g.0, g.1 ∙ e, g.2 ∙ p)

Granted-same :
    (w v : World) (f key : Text) (t : Route) → Grants w.db f key t × (v ≡ w) → Granted w f key t v
Granted-same w v f key t g = (g.0, ap (λ (x : World). x.db) g.1, ap (λ (x : World). x.spool) g.1)

module _ ⦃u : Unicode⦄ where
  found_alias-Granted :
      (f : Text) (address : EmailAddress) (w : World) {t : Route} {v : World}
      → (do
        alias ← map_err (λ e. lookup_failure) (find_alias_by_address address)
        route_alias address alias)
          w
        ≡ (ok t, v)
      → Granted w f (normalised address) t v
  unfolding find_alias_by_address
  found_alias-Granted f address w {t} {v} h =
      let key = normalised address in
      let (o, w1, e, k) =
        >>=-eq-ok (map_err (λ e. lookup_failure) (select (alias_at key))) (route_alias address) w
          h in
      let (fs, q, s) = select-eq-ok (alias_at key) w (map_err-eq-ok (λ e. lookup_failure) _ w e) in
      let d = ap (λ (x : World). x.db) s in
      Granted-after w w1 v f key t d (ap (λ (x : World). x.spool) s) (
        Granted-same w1 v f key t
          (route_alias-Grants f address key o w1 (ap (alias_at key) d ∙ sym q) k))

  or_alias-Granted :
      (f : Text) (address : EmailAddress) (o : Option ContactWithAlias) (w : World) {t : Route}
      {v : World}
      → contact_at (normalised address) w.db ≡ o
      → or_alias f address o
          (do
            alias ← map_err (λ e. lookup_failure) (find_alias_by_address address)
            route_alias address alias)
          w
        ≡ (ok t, v)
      → Granted w f (normalised address) t v
  or_alias-Granted f address none w q h = found_alias-Granted f address w h
  or_alias-Granted f address (some c) w {t} {v} q h =
      Granted-same w v f (normalised address) t (route_reply-Grants f (normalised address) c w q h)

  route_owned-Granted :
      (f : Text) (address : EmailAddress) (w : World) {t : Route} {v : World}
      → route_owned f address w ≡ (ok t, v)
      → Granted w f (normalised address) t v
  unfolding route_owned find_contact_by_reverse_alias
  route_owned-Granted f address w {t} {v} h =
      let key = normalised address in
      let (c, w1, e, k) =
        >>=-eq-ok (map_err (λ e. lookup_failure) (select (contact_at key))) _ w h in
      let (fs, q, s) =
        select-eq-ok (contact_at key) w (map_err-eq-ok (λ e. lookup_failure) _ w e) in
      let d = ap (λ (x : World). x.db) s in
      Granted-after w w1 v f key t d (ap (λ (x : World). x.spool) s)
        (or_alias-Granted f address c w1 (ap (contact_at key) d ∙ sym q) k)

  -- What a granted route says of its recipient.
  pub record IsAuthorised (r : AliasRouter) (db : Db) (mail_from recipient : Text) (t : Route)
      : Type 0 where
    pub address : EmailAddress
    pub parsed : parse recipient ≡ ok address
    pub owned : owns_domain r.aliases address.domain ≡ true
    pub grants : Grants db mail_from (normalised address) t

  mapped-eq-ok :
      {A E F : Type 0} (g : E → F) (x : Result E A) {a : A} → mapped g x ≡ ok a → x ≡ ok a
  mapped-eq-ok g (ok a) h = ground arith
  mapped-eq-ok g (err e) h = cc

  lift-eq-ok :
      {A : Type 0} (x : Result Text A) (w : World) {a : A} {v : World}
      → lift x w ≡ (ok a, v)
      → (x ≡ ok a) × (v ≡ w)
  unfolding lift
  lift-eq-ok x w h = ground arith

  -- A route is granted only for a recipient that parses to an address in a configured domain, and
  -- only to the mailbox of an enabled alias with that address, or to the contact with that reverse
  -- alias where its alias is enabled and the sender is the alias's mailbox; neither the tables nor
  -- the spool have changed.
  pub route-IsAuthorised :
      (r : AliasRouter) (mail_from recipient : Text) (w : World) {t : Route} {v : World}
      → route r mail_from recipient w ≡ (ok t, v)
      → IsAuthorised r w.db mail_from recipient t × (v.db ≡ w.db) × (v.spool ≡ w.spool)
  unfolding route
  route-IsAuthorised r f rcpt w {t} {v} h =
      let (a, w1, e, k) = >>=-eq-ok (lift (mapped _ (parse rcpt))) _ w h in
      let (p, s) = lift-eq-ok (mapped _ (parse rcpt)) w e in
      let (own, g) = if-fail-eq-ok (not (owns_domain r.aliases a.domain)) relay_denied _ w1 k in
      let granted =
        Granted-after w w1 v f (normalised a) t (ap (λ (x : World). x.db) s)
          (ap (λ (x : World). x.spool) s) (route_owned-Granted f a w1 g) in
      (
        record {
          address = a;
          parsed = mapped-eq-ok _ (parse rcpt) p;
          owned = ground arith;
          grants = granted.0;
        },
        granted.1,
        granted.2,
      )
