-- ===== src/Tests/People.antt =====
-- Contacts.
use weiterleitung.Prelude.{◌≡◌, refl, List, [], Option, none, some, Result, ok, err}
use weiterleitung.Text.{Text, lit}
use weiterleitung.Domain.EmailAddress.{EmailAddress}
use weiterleitung.Database.{Contact, World}
use weiterleitung.Contact.{get_or_create_contact}
use weiterleitung.Contact.Stable.{
  IsStored, get_or_create_contact-IsStored, get_or_create_contact_again,
}
use weiterleitung.Tests.Fixture.{ascii, world}

abbrev eve_address : EmailAddress
eve_address = record { local_part = lit "Eve"; domain = lit "e.org" }

abbrev eve : Contact
eve = record {
  contact_id = lit "id0";
  alias_id = lit "a1";
  email = lit "eve@e.org";
  name = some (lit "Eve");
  reverse_alias = lit "r.kkkkkkkkkkkk@x.io";
  created_at = 100;
}

abbrev with_eve : World
with_eve =
    (get_or_create_contact (lit "a1") eve_address (some (lit "Eve")) (lit "r") (lit "x.io") world).1

eve_ok :
    get_or_create_contact (lit "a1") eve_address (some (lit "Eve")) (lit "r") (lit "x.io") world
    ≡ (ok eve, with_eve)
unfolding get_or_create_contact weiterleitung.Database.Exec.◌>>=◌ weiterleitung.Contact.find_contact
    weiterleitung.Database.Exec.select weiterleitung.Prelude.find weiterleitung.Text.eq_text
    weiterleitung.Domain.EmailAddress.normalised weiterleitung.Text.to_ascii_lowercase
    weiterleitung.Contact.create_contact weiterleitung.Database.Exec.new_uuid
    weiterleitung.Alias.Generator.random_token weiterleitung.Database.Exec.draw_byte
    weiterleitung.Database.Exec.pure weiterleitung.Database.Exec.now
    weiterleitung.Database.Exec.map_err weiterleitung.Database.Exec.execute
    weiterleitung.Contact.insert_row weiterleitung.Database.Exec.attempt
    weiterleitung.Database.Exec.fail weiterleitung.Database.Exec.gets weiterleitung.Prelude.any
eve_ok = refl

get_or_create_contact-IsStored_example : IsStored (lit "a1") eve_address eve with_eve.db
get_or_create_contact-IsStored_example =
    get_or_create_contact-IsStored (lit "a1") eve_address (some (lit "Eve")) (lit "r") (lit "x.io")
      world eve_ok

with_eve_clean : with_eve.faults ≡ []
unfolding get_or_create_contact weiterleitung.Database.Exec.◌>>=◌ weiterleitung.Contact.find_contact
    weiterleitung.Database.Exec.select weiterleitung.Prelude.find weiterleitung.Text.eq_text
    weiterleitung.Domain.EmailAddress.normalised weiterleitung.Text.to_ascii_lowercase
    weiterleitung.Contact.create_contact weiterleitung.Database.Exec.new_uuid
    weiterleitung.Alias.Generator.random_token weiterleitung.Database.Exec.draw_byte
    weiterleitung.Database.Exec.pure weiterleitung.Database.Exec.now
    weiterleitung.Database.Exec.map_err weiterleitung.Database.Exec.execute
    weiterleitung.Contact.insert_row weiterleitung.Database.Exec.attempt
    weiterleitung.Database.Exec.fail weiterleitung.Database.Exec.gets weiterleitung.Prelude.any
with_eve_clean = refl

get_or_create_contact_again_example :
    get_or_create_contact (lit "a1") eve_address none (lit "q") (lit "y.io") with_eve
    ≡ (ok eve, with_eve)
get_or_create_contact_again_example =
    get_or_create_contact_again (lit "a1") eve_address (some (lit "Eve")) (lit "r") (lit "x.io")
      world none (lit "q") (lit "y.io") eve_ok with_eve_clean
