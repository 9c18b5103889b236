-- ===== src/Consistency/Inserts.antt =====
-- The statements that insert a contact, a message, a mailbox and a user keep the tables consistent.
use weiterleitung.Prelude.{
  ◌≡◌, refl, ◌∙◌, subst, ◌⊎◌, inl, inr, Bool, true, false, ◌&&◌, ◌||◌, Bool-cases, List, [], ◌∷◌,
  ◌++◌, any, all, all-append, any-or, unique-append, ok, arith, and-true,
}
use weiterleitung.Text.{eq_text}
use weiterleitung.Database.{Db, Alias, Contact, OutboxRow}
use weiterleitung.Database.Schema.{linked}
use weiterleitung.Contact.{is_pair}
use weiterleitung.Contact
use weiterleitung.Delivery.Queue
use weiterleitung.Delivery.Queue.Enqueue.{refers}
use weiterleitung.Consistency.{
  IsConsistent, contacts_distinct, outbox_distinct, contacts_linked, outbox_linked, has_alias,
  has_contact,
}
use weiterleitung.Consistency.Rows.{has_more, outbox_linked_weaken}

abbrev key_taken : Contact → List Contact → Bool
key_taken c cs =
    any (λ k. eq_text k.contact_id c.contact_id || eq_text k.reverse_alias c.reverse_alias) cs

-- What the insertion of a contact has done: nothing, or one row more with fresh keys.
insert_contact-eq-ok :
    (c : Contact) (db : Db) {d : Db}
    → Contact.insert_row c db ≡ ok d
    → (db ≡ d)
      ⊎ ((any (is_pair c.alias_id c.email) db.contacts ≡ false)
          × (key_taken c db.contacts ≡ false)
          × (has_alias db.aliases c.alias_id ≡ true)
          × (record db { contacts = db.contacts ++ (c ∷ []) } ≡ d))
unfolding Contact.insert_row
insert_contact-eq-ok c db h = elim (Bool-cases (any (is_pair c.alias_id c.email) db.contacts)) [
  | inl e ↦ inl (ground arith)
  | inr e ↦ elim (Bool-cases (key_taken c db.contacts)) [
    | inl f ↦ ground arith
    | inr f ↦ elim (Bool-cases (has_alias db.aliases c.alias_id)) [
      | inl g ↦ inr (e, f, g, ground arith)
      | inr g ↦ ground arith
    ]
  ]
]

contacts_more :
    (c : Contact) (cs : List Contact)
    → any (is_pair c.alias_id c.email) cs ≡ false
    → key_taken c cs ≡ false
    → contacts_distinct cs ≡ true
    → contacts_distinct (cs ++ (c ∷ [])) ≡ true
unfolding contacts_distinct
contacts_more c cs p k h =
    let (i, j) =
      any-or (λ k. eq_text k.contact_id c.contact_id) (λ k. eq_text k.reverse_alias c.reverse_alias)
        cs k in
    let (x, yz) = and-true _ _ h in
    let (y, z) = and-true _ _ yz in
    rw
      (
        unique-append (λ (a b : Contact). eq_text a.contact_id b.contact_id) c cs i x,
        unique-append (λ (a b : Contact). eq_text a.reverse_alias b.reverse_alias) c cs j y,
        unique-append (λ (a b : Contact). eq_text a.alias_id b.alias_id && eq_text a.email b.email)
            c cs p z,
      )
      refl

contacts_linked_more :
    (rows : List Alias) (cs : List Contact) (c : Contact)
    → has_alias rows c.alias_id ≡ true
    → contacts_linked rows cs ≡ true
    → contacts_linked rows (cs ++ (c ∷ [])) ≡ true
unfolding contacts_linked all
contacts_linked_more rows cs c h k =
    all-append (λ c. has_alias rows c.alias_id) cs (c ∷ []) ∙ rw (k, h) refl

pub insert_contact-IsConsistent :
    (c : Contact) (db : Db) {d : Db}
    → Contact.insert_row c db ≡ ok d
    → IsConsistent db
    → IsConsistent d
insert_contact-IsConsistent c db h k = elim (insert_contact-eq-ok c db h) [
  | inl q ↦ subst IsConsistent q k
  | inr (p, f, g, q) ↦ subst IsConsistent q (record {
    users = k.users;
    mailboxes = k.mailboxes;
    default = k.default;
    aliases = k.aliases;
    contacts = contacts_more c db.contacts p f k.contacts;
    outbox = k.outbox;
    alias_links = k.alias_links;
    contact_links = contacts_linked_more db.aliases db.contacts c g k.contact_links;
    outbox_links =
        outbox_linked_weaken db.aliases db.aliases db.contacts _ db.outbox (λ key x. x)
          (λ key. has_more (λ b. eq_text b.contact_id key) db.contacts (c ∷ [])) k.outbox_links;
  })
]

insert_message-eq-ok :
    (r : OutboxRow) (db : Db) {d : Db}
    → Queue.insert_row r db ≡ ok d
    → (any (λ k. eq_text k.message.message_id r.message.message_id) db.outbox ≡ false)
      × (refers db r ≡ true)
      × (record db { outbox = db.outbox ++ (r ∷ []) } ≡ d)
unfolding Queue.insert_row
insert_message-eq-ok r db h =
    elim (Bool-cases (any (λ k. eq_text k.message.message_id r.message.message_id) db.outbox)) [
      | inl e ↦ ground arith
      | inr e ↦ elim (Bool-cases (refers db r)) [ inl f ↦ ground arith | inr f ↦ ground arith ]
    ]

outbox_linked_more :
    (rows : List Alias) (cs : List Contact) (outbox : List OutboxRow) (r : OutboxRow)
    → linked (has_alias rows) r.message.alias_id ≡ true
    → linked (has_contact cs) r.message.contact_id ≡ true
    → outbox_linked rows cs outbox ≡ true
    → outbox_linked rows cs (outbox ++ (r ∷ [])) ≡ true
unfolding outbox_linked all
outbox_linked_more rows cs outbox r f g h =
    let (x, y) =
      and-true (all (λ r. linked (has_alias rows) r.message.alias_id) outbox)
        (all (λ r. linked (has_contact cs) r.message.contact_id) outbox) h in
    rw
      (
        all-append (λ (r : OutboxRow). linked (has_alias rows) r.message.alias_id) outbox (r ∷ []),
        all-append (λ (r : OutboxRow). linked (has_contact cs) r.message.contact_id) outbox
            (r ∷ []),
        x,
        y,
        f,
        g,
      )
      refl

pub insert_message-IsConsistent :
    (r : OutboxRow) (db : Db) {d : Db}
    → Queue.insert_row r db ≡ ok d
    → IsConsistent db
    → IsConsistent d
unfolding outbox_distinct
insert_message-IsConsistent r db h k =
    let (e, f, q) = insert_message-eq-ok r db h in
    let (x, y) = and-true _ _ f in
    subst IsConsistent q (record {
      users = k.users;
      mailboxes = k.mailboxes;
      default = k.default;
      aliases = k.aliases;
      contacts = k.contacts;
      outbox = unique-append _ r db.outbox e k.outbox;
      alias_links = k.alias_links;
      contact_links = k.contact_links;
      outbox_links = outbox_linked_more db.aliases db.contacts db.outbox r x y k.outbox_links;
    })
