-- ===== src/Smtp/Router/Replies.antt =====
-- A mailbox can answer: what it sends to the reverse alias of a contact is routed to that contact.
use weiterleitung.Prelude.{◌≡◌, refl, ◌∙◌, ap, true, [], In, some, ok}
use weiterleitung.Text.{Text, Unicode, eq_ignore_ascii_case}
use weiterleitung.Text.Trim.{trim}
use weiterleitung.Configuration.{owns_domain}
use weiterleitung.Domain.EmailAddress.{EmailAddress, parse, normalised}
use weiterleitung.Database.{World, Mailbox, Alias, Contact, ContactWithAlias}
use weiterleitung.Database.Exec.{pure, lift, gets, ◌>>=◌, map_err, attempt, select}
use weiterleitung.Contact.{contact_at, find_contact_by_reverse_alias}
use weiterleitung.Smtp.Router.{AliasRouter, to_contact, route_reply, route_owned, route}
use weiterleitung.Consistency.{IsConsistent}
use weiterleitung.Consistency.Lookups.{contact_row, row_of, contact_at-In}

module _ ⦃u : Unicode⦄ where
  answered :
      (r : AliasRouter) (from recipient : Text) (to : EmailAddress) (v : World)
      (row : ContactWithAlias)
      → parse recipient ≡ ok to
      → owns_domain r.aliases to.domain ≡ true
      → v.faults ≡ []
      → contact_at (normalised to) v.db ≡ some row
      → eq_ignore_ascii_case row.mailbox_email (trim from) ≡ true
      → row.alias_enabled ≡ true
      → route r from recipient v
        ≡ (ok (to_contact row.contact.contact_id row.alias_address row.contact.email), v)
  unfolding route route_owned route_reply find_contact_by_reverse_alias ◌>>=◌ map_err select attempt
      gets lift pure
  answered r from recipient to v row p o f c m e = rw p (rw o (rw f (rw c (rw m (rw e refl)))))

  -- Where the tables are consistent, mail from the mailbox behind an enabled alias to an address
  -- whose normalised form is the reverse alias that is stored for a contact of that alias, in a
  -- configured domain, is routed to that contact, to be sent from the alias, where no operation
  -- fails.
  pub route-In :
      (r : AliasRouter) (from recipient : Text) (to : EmailAddress) (v : World) (c : Contact)
      (a : Alias) (m : Mailbox)
      → IsConsistent v.db
      → In c v.db.contacts
      → In a v.db.aliases
      → In m v.db.mailboxes
      → c.alias_id ≡ a.alias_id
      → a.mailbox_id ≡ m.mailbox_id
      → a.enabled ≡ true
      → v.faults ≡ []
      → parse recipient ≡ ok to
      → normalised to ≡ c.reverse_alias
      → owns_domain r.aliases to.domain ≡ true
      → eq_ignore_ascii_case m.email (trim from) ≡ true
      → route r from recipient v ≡ (ok (to_contact c.contact_id a.address c.email), v)
  route-In r from recipient to v c a m k ic ia im ca am e f p n o own =
      answered r from recipient to v (contact_row c (row_of a m)) p o f
        (ap (λ t. contact_at t v.db) n ∙ contact_at-In v.db c a m k ic ia im ca am) own e
