-- ===== src/Contact.antt =====
-- src/contact/mod.rs: the remote parties of an alias, each with its reverse alias.
pub mod Stable
use weiterleitung.Prelude.{
  Bool, not, ◌&&◌, ◌||◌, if◌then◌else◌, List, [], ◌∷◌, ◌++◌, any, find, keep, leb, sort_by, Option,
  none, some, Result, ok, err,
}
use weiterleitung.Text.{Text, lit, eq_text, Unicode}
use weiterleitung.Domain.EmailAddress.{EmailAddress, normalised}
use weiterleitung.Database.{Db, AliasWithMailbox, Contact, ContactWithAlias}
use weiterleitung.Database.Schema.{unique_violation, foreign_key_violation}
use weiterleitung.Database.Exec.{
  Exec, pure, fail, ◌>>=◌, ◌>>◌, map_err, select, execute, now, new_uuid,
}
use weiterleitung.Alias.{join_mailbox}
use weiterleitung.Alias.Generator.{random_token}

abbrev pub is_pair : Text → Text → Contact → Bool
is_pair alias_id email c = eq_text c.alias_id alias_id && eq_text c.email email

unfoldable pub find_contact : Text → Text → Exec Text (Option Contact)
find_contact alias_id email = select (λ db. find (is_pair alias_id email) db.contacts)

-- `INSERT … ON CONFLICT (alias_id, email) DO NOTHING`.
unfoldable pub insert_row : Contact → Db → Result Text Db
unfolding any eq_text
insert_row c db =
    if any (is_pair c.alias_id c.email) db.contacts
    then ok db
    else if any (λ k. eq_text k.contact_id c.contact_id || eq_text k.reverse_alias c.reverse_alias)
        db.contacts
    then err unique_violation
    else if not (any (λ a. eq_text a.alias_id c.alias_id) db.aliases)
    then err foreign_key_violation
    else ok (record db { contacts = db.contacts ++ (c ∷ []) })

abbrev pub disappeared : Text
disappeared = lit "Contact disappeared right after being inserted"

abbrev pub or_disappeared : Option Contact → Exec Text Contact
or_disappeared none = fail disappeared
or_disappeared (some c) = pure c

-- `{prefix}.{token}@{domain}`.
abbrev pub reverse_address : Text → Text → Text → Text
reverse_address prefix token domain = prefix ++ (lit "." ++ (token ++ (lit "@" ++ domain)))

-- The part behind the first look-up, with the fresh identity drawn.
unfoldable pub create_contact : Text → Text → Option Text → Text → Text → Exec Text Contact
create_contact alias_id email name prefix domain = do
  contact_id ← new_uuid
  token ← random_token 12
  created_at ← now
  let c : Contact = record {
    contact_id = contact_id;
    alias_id = alias_id;
    email = email;
    name = name;
    reverse_alias = reverse_address prefix token domain;
    created_at = created_at;
  }
  map_err (λ e. lit "Failed to insert the contact") (execute (insert_row c))
  found ← find_contact alias_id email
  or_disappeared found

abbrev pub or_create : Option Contact → Exec Text Contact → Exec Text Contact
or_create (some existing) create = pure existing
or_create none create = create

unfoldable pub get_or_create_contact :
    ⦃u : Unicode⦄ → Text → EmailAddress → Option Text → Text → Text → Exec Text Contact
get_or_create_contact alias_id address name prefix domain = do
  let email = normalised address
  existing ← find_contact alias_id email
  or_create existing (create_contact alias_id email name prefix domain)

-- `FROM contacts c JOIN aliases a ON … JOIN mailboxes m ON …`.
abbrev pub joined :
    Contact → Option AliasWithMailbox → List ContactWithAlias → List ContactWithAlias
joined c none rows = rows
joined c (some r) rows =
    record {
      contact = c;
      alias_address = r.alias.address;
      alias_enabled = r.alias.enabled;
      mailbox_email = r.mailbox_email;
    }
    ∷ rows

unfoldable pub join_alias : List AliasWithMailbox → List Contact → List ContactWithAlias
unfolding find
join_alias rows [] = []
join_alias rows (c ∷ rest) =
    joined c (find (λ r. eq_text r.alias.alias_id c.alias_id) rows) (join_alias rows rest)

abbrev pub has_reverse_alias : Text → ContactWithAlias → Bool
has_reverse_alias address r = eq_text r.contact.reverse_alias address

unfoldable pub contact_at : Text → Db → Option ContactWithAlias
unfolding join_alias join_mailbox find
contact_at address db =
    find (has_reverse_alias address) (join_alias (join_mailbox db.mailboxes db.aliases) db.contacts)

unfoldable pub find_contact_by_reverse_alias :
    ⦃u : Unicode⦄ → EmailAddress → Exec Text (Option ContactWithAlias)
find_contact_by_reverse_alias address = select (contact_at (normalised address))

abbrev pub newer : Contact → Contact → Bool
newer a b = leb b.created_at a.created_at

unfoldable pub list_contacts_for_alias : Text → Exec Text (List Contact)
list_contacts_for_alias alias_id =
    select (λ db. sort_by newer (keep (λ c. eq_text c.alias_id alias_id) db.contacts))
