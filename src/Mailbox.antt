-- ===== src/Mailbox.antt =====
-- src/mailbox/mod.rs: the inboxes that aliases forward to.
use weiterleitung.Prelude.{
  ℕ, Bool, false, not, ◌&&◌, ◌||◌, if◌then◌else◌, List, [], ◌∷◌, ◌++◌, map, any, keep, find,
  sort_by, length, Option, none, some, Result, ok, err,
}
use weiterleitung.Text.{Text, lit, eq_text, Unicode}
use weiterleitung.Domain.EmailAddress.{EmailAddress, normalised}
use weiterleitung.Database.{Db, Mailbox}
use weiterleitung.Database.Schema.{unique_violation, le_text, delete_aliases}
use weiterleitung.Database.Exec.{
  Exec, pure, ◌>>=◌, ◌>>◌, map_err, select, execute, transaction, now, new_uuid,
}

unfoldable pub clear_default : Db → Result Text Db
clear_default db =
    ok (record db {
      mailboxes = map (λ (m : Mailbox). record m { is_default = false }) db.mailboxes;
    })

unfoldable pub insert_row : Mailbox → Db → Result Text Db
unfolding any eq_text
insert_row m db =
    if any (λ k. eq_text k.mailbox_id m.mailbox_id || eq_text k.email m.email) db.mailboxes
    then err unique_violation
    else ok (record db { mailboxes = db.mailboxes ++ (m ∷ []) })

-- The writes of the transaction.
unfoldable pub insert_writes : Mailbox → Exec Text (Unit {0})
insert_writes m = do
  if m.is_default then execute clear_default else pure tt
  map_err (λ e. lit "Failed to insert the mailbox") (execute (insert_row m))

unfoldable pub insert_mailbox : ⦃u : Unicode⦄ → EmailAddress → Bool → Exec Text Mailbox
insert_mailbox email is_default = do
  mailbox_id ← new_uuid
  created_at ← now
  let m : Mailbox = record {
    mailbox_id = mailbox_id;
    email = normalised email;
    is_default = is_default;
    created_at = created_at;
  }
  transaction (insert_writes m)
  pure m

-- `ORDER BY is_default DESC, email ASC`.
unfoldable pub le_mailbox : Mailbox → Mailbox → Bool
unfolding le_text
le_mailbox a b =
    if a.is_default
    then not b.is_default || le_text a.email b.email
    else not b.is_default && le_text a.email b.email

unfoldable pub list_mailboxes : Exec Text (List Mailbox)
list_mailboxes = select (λ db. sort_by le_mailbox db.mailboxes)

unfoldable pub get_mailbox : Text → Exec Text (Option Mailbox)
get_mailbox mailbox_id = select (λ db. find (λ m. eq_text m.mailbox_id mailbox_id) db.mailboxes)

unfoldable pub find_mailbox_by_email : ⦃u : Unicode⦄ → EmailAddress → Exec Text (Option Mailbox)
find_mailbox_by_email email =
    select (λ db. find (λ m. eq_text m.email (normalised email)) db.mailboxes)

abbrev pub alias_count : Db → Mailbox → ℕ
alias_count db m = length (keep (λ a. eq_text a.mailbox_id m.mailbox_id) db.aliases)

unfoldable pub list_mailboxes_with_alias_counts : Exec Text (List (Mailbox × ℕ))
list_mailboxes_with_alias_counts =
    select (λ db. map (λ m. (m, alias_count db m)) (sort_by le_mailbox db.mailboxes))

abbrev pub first : List Mailbox → Option Mailbox
first [] = none
first (m ∷ ms) = some m

unfoldable pub default_mailbox : Exec Text (Option Mailbox)
default_mailbox = do ms ← list_mailboxes; pure (first ms)

unfoldable pub delete_row : Text → Db → Result Text Db
unfolding keep eq_text
delete_row mailbox_id db =
    let rest = delete_aliases (λ a. eq_text a.mailbox_id mailbox_id) db in
    ok (record rest { mailboxes = keep (λ m. not (eq_text m.mailbox_id mailbox_id)) db.mailboxes })

unfoldable pub delete_mailbox : Text → Exec Text (Unit {0})
delete_mailbox mailbox_id = execute (delete_row mailbox_id)
