-- ===== src/Consistency/Updates.antt =====
-- The statements that update rows keep the tables consistent, since they leave the keys alone.
use weiterleitung.Prelude.{
  ℕ, ◌≡◌, refl, sym, ◌∙◌, ap, subst, Bool, ◌&&◌, List, [], ◌∷◌, map, all, any-map, all-map, any_ext,
  all_ext, unique-map, Option, none, some, if◌then◌else◌, Bool-cases, inl, inr,
}
use weiterleitung.Text.{Text, eq_text}
use weiterleitung.Database.{Db, Mailbox, Alias, Contact, OutboxRow}
use weiterleitung.Database.Schema.{linked}
use weiterleitung.Alias.{update_alias}
use weiterleitung.Delivery.Queue.{has_id, update_message, requeue_rows, requeue_row, is_sending}
use weiterleitung.Consistency.{
  IsConsistent, aliases_distinct, outbox_distinct, aliases_linked, contacts_linked, outbox_linked,
  has_mailbox, has_alias, has_contact,
}

-- A change of an alias that leaves its keys and its reference alone.
pub record KeepsAlias (g : Alias → Alias) : Type 0 where
  pub alias_id : (a : Alias) → (g a).alias_id ≡ a.alias_id
  pub address : (a : Alias) → (g a).address ≡ a.address
  pub mailbox_id : (a : Alias) → (g a).mailbox_id ≡ a.mailbox_id

has_alias-map :
    (g : Alias → Alias) (rows : List Alias) (key : Text)
    → KeepsAlias g
    → has_alias (map g rows) key ≡ has_alias rows key
has_alias-map g rows key k =
    any-map (λ a. eq_text a.alias_id key) g rows
    ∙ any_ext (λ a. eq_text (g a).alias_id key) (λ a. eq_text a.alias_id key) rows
        (λ a. ap (λ x. eq_text x key) (k.alias_id a))

pub linked_ext :
    (p q : Text → Bool) (o : Option Text) → ((key : Text) → p key ≡ q key) → linked p o ≡ linked q o
unfolding linked
linked_ext p q none h = refl
linked_ext p q (some key) h = h key

module _ (g : Alias → Alias) (rows : List Alias) (k : KeepsAlias g) where
  aliases_distinct-map : aliases_distinct (map g rows) ≡ aliases_distinct rows
  unfolding aliases_distinct
  aliases_distinct-map =
      rw
        (
          unique-map (λ (a b : Alias). eq_text a.alias_id b.alias_id) g rows
              (λ x y. rw (k.alias_id x, k.alias_id y) refl),
          unique-map (λ (a b : Alias). eq_text a.address b.address) g rows
              (λ x y. rw (k.address x, k.address y) refl),
        )
        refl

  aliases_linked-map : (ms : List Mailbox) → aliases_linked ms (map g rows) ≡ aliases_linked ms rows
  unfolding aliases_linked
  aliases_linked-map ms =
      all-map (λ a. has_mailbox ms a.mailbox_id) g rows
      ∙ all_ext _ _ rows (λ a. ap (has_mailbox ms) (k.mailbox_id a))

  contacts_linked-map :
      (cs : List Contact) → contacts_linked (map g rows) cs ≡ contacts_linked rows cs
  unfolding contacts_linked
  contacts_linked-map cs = all_ext _ _ cs (λ c. has_alias-map g rows c.alias_id k)

  outbox_linked-map :
      (cs : List Contact) (outbox : List OutboxRow)
      → outbox_linked (map g rows) cs outbox ≡ outbox_linked rows cs outbox
  unfolding outbox_linked
  outbox_linked-map cs outbox =
      ap (λ b. b && all (λ (r : OutboxRow). linked (has_contact cs) r.message.contact_id) outbox)
        (all_ext (λ (r : OutboxRow). linked (has_alias (map g rows)) r.message.alias_id)
          (λ r. linked (has_alias rows) r.message.alias_id) outbox
          (λ r. linked_ext _ _ r.message.alias_id (λ key. has_alias-map g rows key k)))

abbrev at_alias : Text → (Alias → Alias) → Alias → Alias
at_alias id f a = if eq_text a.alias_id id then f a else a

update_alias-map :
    (id : Text) (f : Alias → Alias) (rows : List Alias)
    → update_alias id f rows ≡ map (at_alias id f) rows
unfolding update_alias
update_alias-map id f [] = refl
update_alias-map id f (a ∷ rows) = ap (λ xs. at_alias id f a ∷ xs) (update_alias-map id f rows)

at_alias-KeepsAlias : (id : Text) (f : Alias → Alias) → KeepsAlias f → KeepsAlias (at_alias id f)
at_alias-KeepsAlias id f k = record {
  alias_id = λ a. elim (Bool-cases (eq_text a.alias_id id)) [
    | inl e ↦ rw e (k.alias_id a)
    | inr e ↦ rw e refl
  ];
  address = λ a. elim (Bool-cases (eq_text a.alias_id id)) [
    | inl e ↦ rw e (k.address a)
    | inr e ↦ rw e refl
  ];
  mailbox_id = λ a. elim (Bool-cases (eq_text a.alias_id id)) [
    | inl e ↦ rw e (k.mailbox_id a)
    | inr e ↦ rw e refl
  ];
}

pub update_alias-IsConsistent :
    (id : Text) (f : Alias → Alias) (db : Db)
    → KeepsAlias f
    → IsConsistent db
    → IsConsistent (record db { aliases = update_alias id f db.aliases })
update_alias-IsConsistent id f db k c =
    let g = at_alias id f in
    let kept = at_alias-KeepsAlias id f k in
    subst (λ rows. IsConsistent (record db { aliases = rows }))
      (sym (update_alias-map id f db.aliases))
      (record {
        users = c.users;
        mailboxes = c.mailboxes;
        default = c.default;
        aliases = aliases_distinct-map g db.aliases kept ∙ c.aliases;
        contacts = c.contacts;
        outbox = c.outbox;
        alias_links = aliases_linked-map g db.aliases kept db.mailboxes ∙ c.alias_links;
        contact_links = contacts_linked-map g db.aliases kept db.contacts ∙ c.contact_links;
        outbox_links = outbox_linked-map g db.aliases kept db.contacts db.outbox ∙ c.outbox_links;
      })

-- The same for a message.
pub record KeepsMessage (g : OutboxRow → OutboxRow) : Type 0 where
  pub message_id : (r : OutboxRow) → (g r).message.message_id ≡ r.message.message_id
  pub alias_id : (r : OutboxRow) → (g r).message.alias_id ≡ r.message.alias_id
  pub contact_id : (r : OutboxRow) → (g r).message.contact_id ≡ r.message.contact_id

pub both : {a b c d : Bool} → a ≡ b → c ≡ d → (a && c) ≡ (b && d)
both p q = rw (p, q) refl

map_outbox-IsConsistent :
    (g : OutboxRow → OutboxRow) (db : Db)
    → KeepsMessage g
    → IsConsistent db
    → IsConsistent (record db { outbox = map g db.outbox })
unfolding outbox_distinct outbox_linked
map_outbox-IsConsistent g db k c = record {
  users = c.users;
  mailboxes = c.mailboxes;
  default = c.default;
  aliases = c.aliases;
  contacts = c.contacts;
  outbox =
      unique-map (λ (a b : OutboxRow). eq_text a.message.message_id b.message.message_id) g
        db.outbox (λ x y. rw (k.message_id x, k.message_id y) refl)
      ∙ c.outbox;
  alias_links = c.alias_links;
  contact_links = c.contact_links;
  outbox_links =
      both
        (all-map (λ (r : OutboxRow). linked (has_alias db.aliases) r.message.alias_id) g db.outbox
          ∙ all_ext _ _ db.outbox (λ r. ap (linked (has_alias db.aliases)) (k.alias_id r)))
        (all-map (λ (r : OutboxRow). linked (has_contact db.contacts) r.message.contact_id) g
            db.outbox
          ∙ all_ext _ _ db.outbox (λ r. ap (linked (has_contact db.contacts)) (k.contact_id r)))
      ∙ c.outbox_links;
}

abbrev at_message : Text → (OutboxRow → OutboxRow) → OutboxRow → OutboxRow
at_message id f r = if has_id id r then f r else r

update_message-map :
    (id : Text) (f : OutboxRow → OutboxRow) (rows : List OutboxRow)
    → update_message id f rows ≡ map (at_message id f) rows
unfolding update_message
update_message-map id f [] = refl
update_message-map id f (r ∷ rows) =
    ap (λ xs. at_message id f r ∷ xs) (update_message-map id f rows)

choice-KeepsMessage :
    (p : OutboxRow → Bool) (f : OutboxRow → OutboxRow)
    → KeepsMessage f
    → KeepsMessage (λ r. if p r then f r else r)
choice-KeepsMessage p f k = record {
  message_id = λ r. elim (Bool-cases (p r)) [ inl e ↦ rw e (k.message_id r) | inr e ↦ rw e refl ];
  alias_id = λ r. elim (Bool-cases (p r)) [ inl e ↦ rw e (k.alias_id r) | inr e ↦ rw e refl ];
  contact_id = λ r. elim (Bool-cases (p r)) [ inl e ↦ rw e (k.contact_id r) | inr e ↦ rw e refl ];
}

pub update_message-IsConsistent :
    (id : Text) (f : OutboxRow → OutboxRow) (db : Db)
    → KeepsMessage f
    → IsConsistent db
    → IsConsistent (record db { outbox = update_message id f db.outbox })
update_message-IsConsistent id f db k c =
    subst (λ rows. IsConsistent (record db { outbox = rows }))
      (sym (update_message-map id f db.outbox))
      (map_outbox-IsConsistent (at_message id f) db (choice-KeepsMessage (has_id id) f k) c)

requeue_rows-map :
    (time : ℕ) (rows : List OutboxRow) → requeue_rows time rows ≡ map (requeue_row time) rows
unfolding requeue_rows
requeue_rows-map time [] = refl
requeue_rows-map time (r ∷ rows) = ap (λ xs. requeue_row time r ∷ xs) (requeue_rows-map time rows)

pub requeue_rows-IsConsistent :
    (time : ℕ) (db : Db)
    → IsConsistent db
    → IsConsistent (record db { outbox = requeue_rows time db.outbox })
requeue_rows-IsConsistent time db c =
    subst (λ rows. IsConsistent (record db { outbox = rows }))
      (sym (requeue_rows-map time db.outbox))
      (map_outbox-IsConsistent (requeue_row time) db
        (choice-KeepsMessage (λ r. is_sending r.message.status) _
          (record { message_id = λ r. refl; alias_id = λ r. refl; contact_id = λ r. refl }))
        c)
