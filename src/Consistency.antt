-- ===== src/Consistency.antt =====
-- The invariant of the tables, over every task that works on them: the keys of
-- migrations/20260923000001_initial_schema.sql, its references, and that at most one mailbox is the
-- default.
pub mod Rows
pub mod Inserts
pub mod Updates
pub mod Deletes
pub mod Mailboxes
pub mod Users
pub mod Handlers
pub mod Mail
pub mod Pages
pub mod Reachable
pub mod Lookups
use weiterleitung.Prelude.{◌≡◌, Bool, true, ◌&&◌, List, any, all, unique}
use weiterleitung.Text.{Text, eq_text}
use weiterleitung.Database.{Db, World, User, Mailbox, Alias, Contact, OutboxRow}
use weiterleitung.Database.Schema.{linked}
use weiterleitung.Database.Frame.{IsFrame}

unfoldable pub users_distinct : List User → Bool
users_distinct us =
    unique (λ a b. eq_text a.user_id b.user_id) us
    && unique (λ a b. eq_text a.username b.username) us

unfoldable pub mailboxes_distinct : List Mailbox → Bool
mailboxes_distinct ms =
    unique (λ a b. eq_text a.mailbox_id b.mailbox_id) ms
    && unique (λ a b. eq_text a.email b.email) ms

unfoldable pub one_default : List Mailbox → Bool
one_default ms = unique (λ a b. a.is_default && b.is_default) ms

unfoldable pub aliases_distinct : List Alias → Bool
aliases_distinct rows =
    unique (λ a b. eq_text a.alias_id b.alias_id) rows
    && unique (λ a b. eq_text a.address b.address) rows

unfoldable pub contacts_distinct : List Contact → Bool
contacts_distinct cs =
    unique (λ a b. eq_text a.contact_id b.contact_id) cs
    && (unique (λ a b. eq_text a.reverse_alias b.reverse_alias) cs
        && unique (λ a b. eq_text a.alias_id b.alias_id && eq_text a.email b.email) cs)

unfoldable pub outbox_distinct : List OutboxRow → Bool
outbox_distinct rows = unique (λ a b. eq_text a.message.message_id b.message.message_id) rows

abbrev pub has_mailbox : List Mailbox → Text → Bool
has_mailbox ms key = any (λ m. eq_text m.mailbox_id key) ms

abbrev pub has_alias : List Alias → Text → Bool
has_alias rows key = any (λ a. eq_text a.alias_id key) rows

abbrev pub has_contact : List Contact → Text → Bool
has_contact cs key = any (λ c. eq_text c.contact_id key) cs

-- Every alias has its mailbox, every contact its alias, and a message the alias and the contact that
-- it names.
unfoldable pub aliases_linked : List Mailbox → List Alias → Bool
aliases_linked ms rows = all (λ a. has_mailbox ms a.mailbox_id) rows

unfoldable pub contacts_linked : List Alias → List Contact → Bool
contacts_linked rows cs = all (λ c. has_alias rows c.alias_id) cs

unfoldable pub outbox_linked : List Alias → List Contact → List OutboxRow → Bool
outbox_linked rows cs outbox =
    all (λ r. linked (has_alias rows) r.message.alias_id) outbox
    && all (λ r. linked (has_contact cs) r.message.contact_id) outbox

pub record IsConsistent (db : Db) : Type 0 where
  pub users : users_distinct db.users ≡ true
  pub mailboxes : mailboxes_distinct db.mailboxes ≡ true
  pub default : one_default db.mailboxes ≡ true
  pub aliases : aliases_distinct db.aliases ≡ true
  pub contacts : contacts_distinct db.contacts ≡ true
  pub outbox : outbox_distinct db.outbox ≡ true
  pub alias_links : aliases_linked db.mailboxes db.aliases ≡ true
  pub contact_links : contacts_linked db.aliases db.contacts ≡ true
  pub outbox_links : outbox_linked db.aliases db.contacts db.outbox ≡ true

-- What a handler must do: keep the tables consistent.
abbrev pub Keeps : World → World → Type 0
Keeps w v = IsConsistent w.db → IsConsistent v.db

pub Keeps-IsFrame : IsFrame Keeps
Keeps-IsFrame = record {
  same = λ w h. h;
  trans = λ a b c f g h. g (f h);
  faults = λ w fs h. h;
  draw = λ w n h. h;
}
