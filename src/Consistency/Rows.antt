-- ===== src/Consistency/Rows.antt =====
-- Each statement that inserts a row keeps the tables consistent.
use weiterleitung.Prelude.{
  ◌≡◌, refl, ◌∙◌, subst, inl, inr, Bool, true, false, ◌||◌, Bool-cases, List, [], ◌∷◌, ◌++◌, any,
  all, any-append, all-append, any-or, all_weaken, unique-append, Option, none, some, Result, ok,
  arith, and-true,
}
use weiterleitung.Text.{Text, eq_text}
use weiterleitung.Database.{Db, Mailbox, Alias, Contact, OutboxRow}
use weiterleitung.Database.Schema.{linked}
use weiterleitung.Alias
use weiterleitung.Consistency.{
  IsConsistent, aliases_distinct, aliases_linked, has_mailbox, has_alias, has_contact,
  contacts_linked, outbox_linked,
}

pub ok_eq : {A : Type 0} {a b : A} → ◌≡◌ {A = Result Text A} (ok a) (ok b) → a ≡ b
ok_eq h = cc

-- A row more in a table that rows of another refer to.
pub has_more :
    {A : Type 0} (p : A → Bool) (xs ys : List A) → any p xs ≡ true → any p (xs ++ ys) ≡ true
has_more p xs ys h = any-append p xs ys ∙ rw h refl

aliases_more :
    (rows : List Alias) (a : Alias)
    → any (λ b. eq_text b.alias_id a.alias_id || eq_text b.address a.address) rows ≡ false
    → aliases_distinct rows ≡ true
    → aliases_distinct (rows ++ (a ∷ [])) ≡ true
unfolding aliases_distinct
aliases_more rows a h k =
    let (i, j) =
      any-or (λ b. eq_text b.alias_id a.alias_id) (λ b. eq_text b.address a.address) rows h in
    let (x, y) = and-true _ _ k in
    rw
      (
        unique-append (λ a b. eq_text a.alias_id b.alias_id) a rows i x,
        unique-append (λ a b. eq_text a.address b.address) a rows j y,
      )
      refl

abbrev taken : Alias → List Alias → Bool
taken a rows = any (λ b. eq_text b.alias_id a.alias_id || eq_text b.address a.address) rows

insert_alias-eq-ok :
    (a : Alias) (db : Db) {d : Db}
    → Alias.insert_row a db ≡ ok d
    → (any (λ b. eq_text b.alias_id a.alias_id || eq_text b.address a.address) db.aliases ≡ false)
      × (has_mailbox db.mailboxes a.mailbox_id ≡ true)
      × (record db { aliases = db.aliases ++ (a ∷ []) } ≡ d)
unfolding Alias.insert_row
insert_alias-eq-ok a db h = elim (Bool-cases (taken a db.aliases)) [
  | inl e ↦ ground arith
  | inr e ↦ elim (Bool-cases (has_mailbox db.mailboxes a.mailbox_id)) [
    | inl f ↦ ground arith
    | inr f ↦ ground arith
  ]
]

aliases_linked_more :
    (ms : List Mailbox) (rows : List Alias) (a : Alias)
    → has_mailbox ms a.mailbox_id ≡ true
    → aliases_linked ms rows ≡ true
    → aliases_linked ms (rows ++ (a ∷ [])) ≡ true
unfolding aliases_linked all
aliases_linked_more ms rows a h k =
    all-append (λ a. has_mailbox ms a.mailbox_id) rows (a ∷ []) ∙ rw (k, h) refl

contacts_linked_more :
    (rows : List Alias) (a : Alias) (cs : List Contact)
    → contacts_linked rows cs ≡ true
    → contacts_linked (rows ++ (a ∷ [])) cs ≡ true
unfolding contacts_linked
contacts_linked_more rows a cs h =
    all_weaken _ _ cs (λ c k. has_more (λ b. eq_text b.alias_id c.alias_id) rows (a ∷ []) k) h

-- A key that is known stays known.
pub linked_weaken :
    (p q : Text → Bool) (o : Option Text)
    → ((key : Text) → p key ≡ true → q key ≡ true)
    → linked p o ≡ true
    → linked q o ≡ true
unfolding linked
linked_weaken p q none h k = k
linked_weaken p q (some key) h k = h key k

pub outbox_linked_weaken :
    (rows rows2 : List Alias) (cs cs2 : List Contact) (outbox : List OutboxRow)
    → ((key : Text) → has_alias rows key ≡ true → has_alias rows2 key ≡ true)
    → ((key : Text) → has_contact cs key ≡ true → has_contact cs2 key ≡ true)
    → outbox_linked rows cs outbox ≡ true
    → outbox_linked rows2 cs2 outbox ≡ true
unfolding outbox_linked
outbox_linked_weaken rows rows2 cs cs2 outbox f g h =
    let (x, y) = and-true _ _ h in
    let a =
      all_weaken (λ (r : OutboxRow). linked (has_alias rows) r.message.alias_id)
        (λ r. linked (has_alias rows2) r.message.alias_id) outbox
        (λ r. linked_weaken (has_alias rows) (has_alias rows2) r.message.alias_id f) x in
    let b =
      all_weaken (λ (r : OutboxRow). linked (has_contact cs) r.message.contact_id)
        (λ r. linked (has_contact cs2) r.message.contact_id) outbox
        (λ r. linked_weaken (has_contact cs) (has_contact cs2) r.message.contact_id g) y in
    rw (a, b) refl

pub insert_alias-IsConsistent :
    (a : Alias) (db : Db) {d : Db} → Alias.insert_row a db ≡ ok d → IsConsistent db → IsConsistent d
insert_alias-IsConsistent a db h c =
    let (e, f, q) = insert_alias-eq-ok a db h in
    subst IsConsistent q (record {
      users = c.users;
      mailboxes = c.mailboxes;
      default = c.default;
      aliases = aliases_more db.aliases a e c.aliases;
      contacts = c.contacts;
      outbox = c.outbox;
      alias_links = aliases_linked_more db.mailboxes db.aliases a f c.alias_links;
      contact_links = contacts_linked_more db.aliases a db.contacts c.contact_links;
      outbox_links =
          outbox_linked_weaken db.aliases _ db.contacts db.contacts db.outbox
            (λ key. has_more (λ b. eq_text b.alias_id key) db.aliases (a ∷ [])) (λ key k. k)
            c.outbox_links;
    })
