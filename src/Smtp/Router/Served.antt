-- ===== src/Smtp/Router/Served.antt =====
-- An alias that was created takes mail at once.
use weiterleitung.Prelude.{◌≡◌, refl, ◌∙◌, ap, true, [], Option, none, some, ok}
use weiterleitung.Text.{Text, Unicode}
use weiterleitung.Configuration.{owns_domain}
use weiterleitung.Domain.EmailAddress.{EmailAddress, parse, normalised}
use weiterleitung.Database.{World, Alias, AliasWithMailbox}
use weiterleitung.Database.Exec.{pure, lift, gets, ◌>>=◌, map_err, attempt, select}
use weiterleitung.Alias.{insert_alias, alias_at, find_alias_by_address}
use weiterleitung.Alias.Created.{insert_alias-IsFound}
use weiterleitung.Contact.{contact_at, find_contact_by_reverse_alias}
use weiterleitung.Smtp.Router.{AliasRouter, to_mailbox, route_alias, route_owned, route}

module _ ⦃u : Unicode⦄ where
  routed :
      (r : AliasRouter) (from recipient : Text) (to : EmailAddress) (v : World)
      (row : AliasWithMailbox)
      → parse recipient ≡ ok to
      → owns_domain r.aliases to.domain ≡ true
      → v.faults ≡ []
      → contact_at (normalised to) v.db ≡ none
      → alias_at (normalised to) v.db ≡ some row
      → row.alias.enabled ≡ true
      → route r from recipient v ≡ (ok (to_mailbox row.alias.alias_id row.alias.address), v)
  unfolding route route_owned route_alias find_contact_by_reverse_alias find_alias_by_address ◌>>=◌
      map_err select attempt gets lift pure
  routed r from recipient to v row p o f c a e = rw p (rw o (rw f (rw c (rw a (rw e refl)))))

  -- After an alias was inserted, a recipient of that address, in a configured domain, that is no
  -- reverse alias, is routed to the alias where no operation fails, whoever writes.
  pub route-insert_alias :
      (r : AliasRouter) (address : EmailAddress) (mailbox_id : Text) (remark : Option Text)
      (w : World) {a : Alias} {v : World} (from recipient : Text) (to : EmailAddress)
      → insert_alias address mailbox_id remark w ≡ (ok a, v)
      → v.faults ≡ []
      → parse recipient ≡ ok to
      → normalised to ≡ normalised address
      → owns_domain r.aliases to.domain ≡ true
      → contact_at (normalised to) v.db ≡ none
      → route r from recipient v ≡ (ok (to_mailbox a.alias_id a.address), v)
  route-insert_alias r address mailbox_id remark w {a} {v} from recipient to h f p n o c =
      let (m, g, e, k) = insert_alias-IsFound address mailbox_id remark w h in
      routed r from recipient to v (record { alias = a; mailbox_email = m.email }) p o f c
        (ap (λ t. alias_at t v.db) n ∙ k) e
