-- ===== src/Alias.antt =====
-- src/alias/mod.rs: the aliases and their counters.
pub mod Generator
pub mod Created
use weiterleitung.Prelude.{
  ℕ, ◌+◌, Bool, true, not, ◌||◌, if◌then◌else◌, List, [], ◌∷◌, ◌++◌, map, any, find, leb, sort_by,
  Option, none, some, Result, ok, err,
}
use weiterleitung.Text.{Text, lit, eq_text, Unicode}
use weiterleitung.Domain.EmailAddress.{EmailAddress, normalised}
use weiterleitung.Database.{Db, Mailbox, Alias, AliasWithMailbox}
use weiterleitung.Database.Schema.{unique_violation, foreign_key_violation, delete_aliases}
use weiterleitung.Database.Exec.{Exec, pure, ◌>>=◌, ◌>>◌, map_err, select, execute, now, new_uuid}

-- The constraints of a new row, then the row.
unfoldable pub insert_row : Alias → Db → Result Text Db
unfolding any eq_text
insert_row a db =
    if any (λ b. eq_text b.alias_id a.alias_id || eq_text b.address a.address) db.aliases
    then err unique_violation
    else if not (any (λ m. eq_text m.mailbox_id a.mailbox_id) db.mailboxes)
    then err foreign_key_violation
    else ok (record db { aliases = db.aliases ++ (a ∷ []) })

unfoldable pub insert_alias : ⦃u : Unicode⦄ → EmailAddress → Text → Option Text → Exec Text Alias
insert_alias address mailbox_id note = do
  alias_id ← new_uuid
  created_at ← now
  let a : Alias = record {
    alias_id = alias_id;
    address = normalised address;
    mailbox_id = mailbox_id;
    note = note;
    enabled = true;
    forward_count = 0;
    reply_count = 0;
    blocked_count = 0;
    created_at = created_at;
    last_used_at = none;
  }
  map_err (λ e. lit "Failed to insert the alias") (execute (insert_row a))
  pure a

-- `FROM aliases a JOIN mailboxes m ON m.mailbox_id = a.mailbox_id`.
abbrev pub joined : Alias → Option Mailbox → List AliasWithMailbox → List AliasWithMailbox
joined a none rows = rows
joined a (some m) rows = record { alias = a; mailbox_email = m.email } ∷ rows

unfoldable pub join_mailbox : List Mailbox → List Alias → List AliasWithMailbox
unfolding find
join_mailbox ms [] = []
join_mailbox ms (a ∷ rest) =
    joined a (find (λ m. eq_text m.mailbox_id a.mailbox_id) ms) (join_mailbox ms rest)

abbrev pub has_address : Text → AliasWithMailbox → Bool
has_address address r = eq_text r.alias.address address

unfoldable pub alias_at : Text → Db → Option AliasWithMailbox
unfolding join_mailbox find
alias_at address db = find (has_address address) (join_mailbox db.mailboxes db.aliases)

unfoldable pub find_alias_by_address :
    ⦃u : Unicode⦄ → EmailAddress → Exec Text (Option AliasWithMailbox)
find_alias_by_address address = select (alias_at (normalised address))

-- `ORDER BY created_at DESC`.
abbrev pub newer : AliasWithMailbox → AliasWithMailbox → Bool
newer a b = leb b.alias.created_at a.alias.created_at

unfoldable pub all_aliases : Db → List AliasWithMailbox
unfolding join_mailbox sort_by
all_aliases db = sort_by newer (join_mailbox db.mailboxes db.aliases)

unfoldable pub list_aliases : Exec Text (List AliasWithMailbox)
list_aliases = select all_aliases

-- `UPDATE aliases SET … WHERE alias_id = ?`.
unfoldable pub update_alias : Text → (Alias → Alias) → List Alias → List Alias
update_alias alias_id f [] = []
update_alias alias_id f (a ∷ rest) =
    (if eq_text a.alias_id alias_id then f a else a) ∷ update_alias alias_id f rest

abbrev pub update_row : Text → (Alias → Alias) → Db → Result Text Db
update_row alias_id f db = ok (record db { aliases = update_alias alias_id f db.aliases })

unfoldable pub set_alias_enabled : Text → Bool → Exec Text (Unit {0})
set_alias_enabled alias_id enabled =
    execute (update_row alias_id (λ a. record a { enabled = enabled }))

unfoldable pub delete_row : Text → Db → Result Text Db
delete_row alias_id db = ok (delete_aliases (λ a. eq_text a.alias_id alias_id) db)

unfoldable pub delete_alias : Text → Exec Text (Unit {0})
delete_alias alias_id = execute (delete_row alias_id)

pub data AliasCounter : Type 0 where
  forwarded replied blocked : AliasCounter

unfoldable pub bump : AliasCounter → ℕ → Alias → Alias
bump forwarded time a = record a { forward_count = a.forward_count + 1; last_used_at = some time }
bump replied time a = record a { reply_count = a.reply_count + 1; last_used_at = some time }
bump blocked time a = record a { blocked_count = a.blocked_count + 1; last_used_at = some time }

unfoldable pub record_alias_activity : Text → AliasCounter → Exec Text (Unit {0})
record_alias_activity alias_id counter = do
  time ← now
  execute (update_row alias_id (bump counter time))
