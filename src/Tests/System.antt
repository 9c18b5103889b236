-- ===== src/Tests/System.antt =====
-- The tasks together, and a worker that starts again.
use weiterleitung.Prelude.{
  ℕ, ◌≡◌, refl, true, false, any, keep, length, List, [], ◌∷◌, ◌++◌, Option, none, some, Result, ok,
  err, In, head, later,
}
use weiterleitung.Text.Trim.{trim}
use weiterleitung.Smtp.Router.Replies.{route-In}
use weiterleitung.Text.{eq_ignore_ascii_case, Text, lit, Bytes}
use weiterleitung.Configuration.{owns_domain}
use weiterleitung.Domain.EmailAddress.{EmailAddress, parse, normalised}
use weiterleitung.Database.{Db, World, Alias, OutboxRow, pending, sending}
use weiterleitung.Alias.{insert_alias, alias_at}
use weiterleitung.Alias.Created.{IsFound, insert_alias-IsFound}
use weiterleitung.Contact.{contact_at}
use weiterleitung.Delivery.Queue.{is_due, requeue_interrupted}
use weiterleitung.Delivery.Worker.{drain_outbox}
use weiterleitung.Delivery.Worker.Restart.{
  in_flight, requeue_interrupted-none_in_flight, requeue_interrupted-is_due,
}
use weiterleitung.Smtp.Router.{handle, route, to_mailbox, to_contact}
use weiterleitung.Smtp.Router.Served.{route-insert_alias}
use weiterleitung.Startup.{admin, post_aliases, post_delete_mailbox, serve}
use weiterleitung.Consistency.{
  IsConsistent, users_distinct, mailboxes_distinct, one_default, aliases_distinct,
  contacts_distinct, outbox_distinct, aliases_linked, contacts_linked, outbox_linked,
}
use weiterleitung.Consistency.Reachable.{
  here, and_then, answers, handles, delivers, Runs-IsConsistent,
}
use weiterleitung.Tests.Fixture.{
  home, an_alias, bob, ascii, tables, world, router, incoming, a_row, closed,
}
use weiterleitung.Tests.Visitor.{app, files, installed}
use weiterleitung.Tests.Web.{alias_form, inside}

installed-IsConsistent : IsConsistent installed.db
unfolding users_distinct mailboxes_distinct one_default aliases_distinct contacts_distinct
    outbox_distinct aliases_linked contacts_linked outbox_linked weiterleitung.Prelude.unique
    weiterleitung.Prelude.any weiterleitung.Prelude.all weiterleitung.Text.eq_text
    weiterleitung.Database.Schema.linked
installed-IsConsistent = record {
  users = refl;
  mailboxes = refl;
  default = refl;
  aliases = refl;
  contacts = refl;
  outbox = refl;
  alias_links = refl;
  contact_links = refl;
  outbox_links = refl;
}

abbrev with_alias : World
with_alias =
    (serve app files (admin (post_aliases alias_form))
      (record { session = inside; world = installed })).1.world

abbrev with_mail : World
with_mail = (handle router incoming with_alias).1

abbrev passed : World
passed = (drain_outbox closed 3 with_mail).1

abbrev emptied : World
emptied =
    (serve app files (admin (post_delete_mailbox (lit "m1")))
      (record { session = inside; world = passed })).1.world

Runs-IsConsistent_example : IsConsistent emptied.db
Runs-IsConsistent_example =
    Runs-IsConsistent app files router
      (and_then passed emptied
        (and_then with_mail passed
          (and_then with_alias with_mail
            (and_then installed with_alias here (answers (admin (post_aliases alias_form)) inside))
            (handles incoming))
          (delivers closed 3))
        (answers (admin (post_delete_mailbox (lit "m1"))) inside))
      installed-IsConsistent

abbrev busy : World
busy = record world {
  db = record tables { outbox = a_row "s" sending 900 ∷ a_row "p" pending 5 ∷ [] };
}

abbrev resumed : World
resumed = (requeue_interrupted busy).1

requeued : requeue_interrupted busy ≡ (ok 1, resumed)
unfolding requeue_interrupted weiterleitung.Database.Exec.◌>>=◌ weiterleitung.Database.Exec.now
    weiterleitung.Database.Exec.execute weiterleitung.Database.Exec.pure keep
    weiterleitung.Delivery.Queue.is_sending
requeued = refl

requeue_interrupted-none_in_flight_example :
    (any in_flight resumed.db.outbox ≡ false) × (1 ≡ length (keep in_flight busy.db.outbox))
requeue_interrupted-none_in_flight_example = requeue_interrupted-none_in_flight busy requeued

was_in_flight : in_flight (a_row "s" sending 900) ≡ true
unfolding weiterleitung.Delivery.Queue.is_sending
was_in_flight = refl

requeue_interrupted-is_due_example :
    In (a_row "s" pending 100) resumed.db.outbox
    × (is_due resumed.clock (a_row "s" pending 100) ≡ true)
requeue_interrupted-is_due_example =
    requeue_interrupted-is_due busy (a_row "s" sending 900) requeued (head refl) was_in_flight

abbrev fresh : EmailAddress
fresh = record { local_part = lit "New"; domain = lit "x.io" }

abbrev with_fresh : World
with_fresh = (insert_alias fresh (lit "m1") none world).1

abbrev fresh_row : Alias
fresh_row = record {
  alias_id = lit "id0";
  address = lit "new@x.io";
  mailbox_id = lit "m1";
  note = none;
  enabled = true;
  forward_count = 0;
  reply_count = 0;
  blocked_count = 0;
  created_at = 100;
  last_used_at = none;
}

inserted : insert_alias fresh (lit "m1") none world ≡ (ok fresh_row, with_fresh)
unfolding insert_alias weiterleitung.Database.Exec.◌>>=◌ weiterleitung.Database.Exec.new_uuid
    weiterleitung.Database.Exec.now weiterleitung.Database.Exec.map_err
    weiterleitung.Database.Exec.execute weiterleitung.Alias.insert_row normalised
    weiterleitung.Text.to_ascii_lowercase weiterleitung.Database.Exec.pure
inserted = refl

insert_alias-IsFound_example : IsFound (normalised fresh) (lit "m1") fresh_row with_fresh.db
insert_alias-IsFound_example = insert_alias-IsFound fresh (lit "m1") none world inserted

abbrev asked_for : EmailAddress
asked_for = record { local_part = lit "nEw"; domain = lit "x.io" }

fresh_clean : with_fresh.faults ≡ []
unfolding insert_alias weiterleitung.Database.Exec.◌>>=◌ weiterleitung.Database.Exec.new_uuid
    weiterleitung.Database.Exec.now weiterleitung.Database.Exec.map_err
    weiterleitung.Database.Exec.execute weiterleitung.Alias.insert_row normalised
    weiterleitung.Text.to_ascii_lowercase weiterleitung.Database.Exec.pure
fresh_clean = refl

asked_parsed : parse (lit "nEw@X.io") ≡ ok asked_for
unfolding parse weiterleitung.Text.Split.rsplit_once weiterleitung.Domain.EmailAddress.bare
    weiterleitung.Text.Trim.trim_end_matches weiterleitung.Text.Trim.trim_start_matches
    weiterleitung.Text.Trim.trim weiterleitung.Domain.EmailAddress.valid_local
    weiterleitung.Domain.EmailAddress.valid_domain weiterleitung.Text.to_ascii_lowercase
asked_parsed = refl

same_address : normalised asked_for ≡ normalised fresh
unfolding normalised weiterleitung.Text.to_ascii_lowercase
same_address = refl

own_domain : owns_domain router.aliases (lit "x.io") ≡ true
unfolding owns_domain weiterleitung.Text.eq_ignore_ascii_case
    weiterleitung.Text.Trim.trim_end_matches
own_domain = refl

no_contact : contact_at (normalised asked_for) with_fresh.db ≡ none
unfolding contact_at insert_alias weiterleitung.Database.Exec.◌>>=◌
    weiterleitung.Database.Exec.new_uuid weiterleitung.Database.Exec.now
    weiterleitung.Database.Exec.map_err weiterleitung.Database.Exec.execute
    weiterleitung.Alias.insert_row normalised weiterleitung.Text.to_ascii_lowercase
    weiterleitung.Database.Exec.pure
no_contact = refl

route-insert_alias_example :
    route router (lit "Eve@e.org") (lit "nEw@X.io") with_fresh
    ≡ (ok (to_mailbox (lit "id0") (lit "new@x.io")), with_fresh)
route-insert_alias_example =
    route-insert_alias router fresh (lit "m1") none world (lit "Eve@e.org") (lit "nEw@X.io")
      asked_for inserted fresh_clean asked_parsed same_address own_domain no_contact

-- The mailbox answers to a contact, over the reverse alias.
abbrev bobs_alias : EmailAddress
bobs_alias = record { local_part = lit "r.t"; domain = lit "x.io" }

bobs_alias_parsed : parse (lit "r.t@x.io") ≡ ok bobs_alias
unfolding parse weiterleitung.Text.Split.rsplit_once weiterleitung.Domain.EmailAddress.bare
    weiterleitung.Text.Trim.trim_end_matches weiterleitung.Text.Trim.trim_start_matches trim
    weiterleitung.Domain.EmailAddress.valid_local weiterleitung.Domain.EmailAddress.valid_domain
    weiterleitung.Text.to_ascii_lowercase
bobs_alias_parsed = refl

bobs_alias-normalised : normalised bobs_alias ≡ lit "r.t@x.io"
unfolding normalised weiterleitung.Text.to_ascii_lowercase
bobs_alias-normalised = refl

from_home : eq_ignore_ascii_case home.email (trim (lit " ME@home.org")) ≡ true
unfolding eq_ignore_ascii_case trim
from_home = refl

route-In_example :
    route router (lit " ME@home.org") (lit "r.t@x.io") installed
    ≡ (ok (to_contact (lit "c1") (lit "shop@x.io") (lit "bob@b.org")), installed)
route-In_example =
    route-In router (lit " ME@home.org") (lit "r.t@x.io") bobs_alias installed bob
      (an_alias "a1" "shop@x.io" true) home installed-IsConsistent (head refl) (head refl)
      (head refl) refl refl refl refl bobs_alias_parsed bobs_alias-normalised own_domain from_home
