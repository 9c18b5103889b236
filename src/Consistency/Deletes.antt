-- ===== src/Consistency/Deletes.antt =====
-- Deleting keeps the tables consistent: what refers to a deleted row goes with it, or forgets it.
use weiterleitung.Prelude.{
  ◌≡◌, refl, ◌∙◌, Bool, true, false, not, ◌&&◌, List, map, any, keep, all-map, all_weaken,
  unique-map, unique-keep, all-keep, any-keep-not, Option, none, some, arith, and-true, Bool-cases,
  inl, inr,
}
use weiterleitung.Text.{Text, eq_text}
use weiterleitung.Database.{Db, Alias, Contact, OutboxRow}
use weiterleitung.Database.Schema.{linked, set_null, unlink, delete_aliases}
use weiterleitung.Consistency.{
  IsConsistent, aliases_distinct, contacts_distinct, outbox_distinct, aliases_linked,
  contacts_linked, outbox_linked, has_mailbox, has_alias, has_contact,
}
use weiterleitung.Consistency.Updates.{both}

aliases_distinct-keep :
    (p : Alias → Bool) (rows : List Alias)
    → aliases_distinct rows ≡ true
    → aliases_distinct (keep p rows) ≡ true
unfolding aliases_distinct
aliases_distinct-keep p rows h =
    let (x, y) = and-true _ _ h in
    rw
      (
        unique-keep (λ (a b : Alias). eq_text a.alias_id b.alias_id) p rows x,
        unique-keep (λ (a b : Alias). eq_text a.address b.address) p rows y,
      )
      refl

contacts_distinct-keep :
    (p : Contact → Bool) (cs : List Contact)
    → contacts_distinct cs ≡ true
    → contacts_distinct (keep p cs) ≡ true
unfolding contacts_distinct
contacts_distinct-keep p cs h =
    let (x, yz) = and-true _ _ h in
    let (y, z) = and-true _ _ yz in
    rw
      (
        unique-keep (λ (a b : Contact). eq_text a.contact_id b.contact_id) p cs x,
        unique-keep (λ (a b : Contact). eq_text a.reverse_alias b.reverse_alias) p cs y,
        unique-keep (λ (a b : Contact). eq_text a.alias_id b.alias_id && eq_text a.email b.email) p
            cs z,
      )
      refl

-- A key whose row is not deleted is still there.
survives :
    {A : Type 0} (p q : A → Bool) (xs : List A) (b : Bool)
    → any p xs ≡ true
    → any p (keep q xs) ≡ b
    → not b ≡ true
    → any p (keep (λ x. not (q x)) xs) ≡ true
survives p q xs b h e k = any-keep-not p q xs h (ground arith)

-- A reference that is nulled where its row is deleted.
linked-set_null :
    (has has2 gone : Text → Bool) (o : Option Text)
    → ((key : Text) → has key ≡ true → gone key ≡ false → has2 key ≡ true)
    → linked has o ≡ true
    → linked has2 (set_null gone o) ≡ true
unfolding linked set_null
linked-set_null has has2 gone none h k = refl
linked-set_null has has2 gone (some key) h k = elim (Bool-cases (gone key)) [
  | inl e ↦ rw e refl
  | inr e ↦ rw e (h key k e)
]

module _ (gone : Alias → Bool) (db : Db) (c : IsConsistent db) where
  alias_gone : Text → Bool
  alias_gone key = has_alias (keep gone db.aliases) key

  contact_gone : Text → Bool
  contact_gone key = has_contact (keep (λ c. alias_gone c.alias_id) db.contacts) key

  aliases_left : List Alias
  aliases_left = keep (λ a. not (gone a)) db.aliases

  contacts_left : List Contact
  contacts_left = keep (λ c. not (alias_gone c.alias_id)) db.contacts

  links_of_contacts : contacts_linked aliases_left contacts_left ≡ true
  unfolding contacts_linked aliases_left contacts_left alias_gone
  links_of_contacts =
      all-keep (λ c. has_alias db.aliases c.alias_id) _ (λ c. has_alias aliases_left c.alias_id)
        db.contacts
        (λ x h k.
          survives (λ a. eq_text a.alias_id x.alias_id) gone db.aliases (alias_gone x.alias_id) h
            refl k)
        c.contact_links

  links_of_outbox :
      outbox_linked aliases_left contacts_left (map (unlink alias_gone contact_gone) db.outbox)
      ≡ true
  unfolding outbox_linked aliases_left contacts_left alias_gone contact_gone
  links_of_outbox =
      let (x, y) = and-true _ _ c.outbox_links in
      both
        (all-map (λ (r : OutboxRow). linked (has_alias aliases_left) r.message.alias_id)
            (unlink alias_gone contact_gone) db.outbox
          ∙ all_weaken (λ (r : OutboxRow). linked (has_alias db.aliases) r.message.alias_id) _
              db.outbox
              (λ r.
                linked-set_null (has_alias db.aliases) (has_alias aliases_left) alias_gone
                  r.message.alias_id
                  (λ key h k. any-keep-not (λ a. eq_text a.alias_id key) gone db.aliases h k))
              x)
        (all-map (λ (r : OutboxRow). linked (has_contact contacts_left) r.message.contact_id)
            (unlink alias_gone contact_gone) db.outbox
          ∙ all_weaken (λ (r : OutboxRow). linked (has_contact db.contacts) r.message.contact_id) _
              db.outbox
              (λ r.
                linked-set_null (has_contact db.contacts) (has_contact contacts_left) contact_gone
                  r.message.contact_id
                  (λ key h k.
                    any-keep-not (λ c. eq_text c.contact_id key) (λ c. alias_gone c.alias_id)
                      db.contacts h k))
              y)

  pub delete_aliases-IsConsistent : IsConsistent (delete_aliases gone db)
  unfolding delete_aliases aliases_linked outbox_distinct aliases_left contacts_left alias_gone
      contact_gone
  delete_aliases-IsConsistent = record {
    users = c.users;
    mailboxes = c.mailboxes;
    default = c.default;
    aliases = aliases_distinct-keep _ db.aliases c.aliases;
    contacts = contacts_distinct-keep _ db.contacts c.contacts;
    outbox =
        unique-map (λ (a b : OutboxRow). eq_text a.message.message_id b.message.message_id)
          (unlink alias_gone contact_gone) db.outbox (λ x y. refl)
        ∙ c.outbox;
    alias_links =
        all-keep (λ a. has_mailbox db.mailboxes a.mailbox_id) _ _ db.aliases (λ a h k. h)
          c.alias_links;
    contact_links = links_of_contacts;
    outbox_links = links_of_outbox;
  }
