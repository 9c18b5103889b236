-- ===== src/Database/Schema.antt =====
-- The constraints of migrations/20260923000001_initial_schema.sql: the errors that SQLite reports,
-- the order of texts, and what `ON DELETE CASCADE` and `ON DELETE SET NULL` do.
use weiterleitung.Prelude.{
  Bool, true, false, not, ◌&&◌, ◌||◌, ltb, if◌then◌else◌, [], ◌∷◌, map, any, keep, Option, none,
  some,
}
use weiterleitung.Text.{Text, lit, eq_text}
use weiterleitung.Database.{Db, Alias, OutboxRow}

-- `COLLATE BINARY`: the order of the bytes, which is that of the code points.
unfoldable pub le_text : Text → Text → Bool
le_text [] t = true
le_text (a ∷ s) [] = false
le_text (a ∷ s) (b ∷ t) = ltb a b || (not (ltb b a) && le_text s t)

abbrev pub unique_violation : Text
unique_violation = lit "UNIQUE constraint failed"

abbrev pub foreign_key_violation : Text
foreign_key_violation = lit "FOREIGN KEY constraint failed"

-- A reference that may be null: where there is a key, the table has it.
unfoldable pub linked : (Text → Bool) → Option Text → Bool
linked has_key none = true
linked has_key (some key) = has_key key

abbrev pub has_alias_id : Db → Text → Bool
has_alias_id db key = any (λ a. eq_text a.alias_id key) db.aliases

abbrev pub has_contact_id : Db → Text → Bool
has_contact_id db key = any (λ c. eq_text c.contact_id key) db.contacts

-- `ON DELETE SET NULL` of one reference: null where a deleted row had that key.
unfoldable pub set_null : (Text → Bool) → Option Text → Option Text
set_null gone none = none
set_null gone (some key) = if gone key then none else some key

abbrev pub unlink : (Text → Bool) → (Text → Bool) → OutboxRow → OutboxRow
unlink alias_gone contact_gone r = record r {
  message = record r.message {
    alias_id = set_null alias_gone r.message.alias_id;
    contact_id = set_null contact_gone r.message.contact_id;
  };
}

-- Deletes the aliases that satisfy `gone`; the schema's references take their contacts with them,
-- and are nulled in the outbox.
unfoldable pub delete_aliases : (Alias → Bool) → Db → Db
unfolding keep any eq_text set_null
delete_aliases gone db =
    let dead = keep gone db.aliases in
    let alias_gone = λ (key : Text). any (λ a. eq_text a.alias_id key) dead in
    let dead_contacts = keep (λ c. alias_gone c.alias_id) db.contacts in
    let contact_gone = λ (key : Text). any (λ c. eq_text c.contact_id key) dead_contacts in
    record db {
      aliases = keep (λ a. not (gone a)) db.aliases;
      contacts = keep (λ c. not (alias_gone c.alias_id)) db.contacts;
      outbox = map (unlink alias_gone contact_gone) db.outbox;
    }
