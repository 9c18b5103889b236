-- ===== src/Smtp/Router/Authority/Rows.antt =====
-- The rows behind what the two queries of the router return.
use weiterleitung.Prelude.{
  ◌≡◌, refl, ◌∙◌, sym, ap, find, find_sound, List, [], ◌∷◌, In, head, later, Option, none, some,
  arith,
}
use weiterleitung.Text.{Text, eq_text, eq_text_iff}
use weiterleitung.Database.{Db, Mailbox, Alias, AliasWithMailbox, Contact, ContactWithAlias}
use weiterleitung.Alias.{join_mailbox, joined, has_address, alias_at}
use weiterleitung.Contact.{join_alias, has_reverse_alias, contact_at, find_contact_by_reverse_alias}
use weiterleitung.Contact

-- The rows behind an alias that is found by its address.
pub record AliasRow (db : Db) (r : AliasWithMailbox) : Type 0 where
  pub mailbox : Mailbox
  pub alias_stored : In r.alias db.aliases
  pub mailbox_stored : In mailbox db.mailboxes
  pub linked : mailbox.mailbox_id ≡ r.alias.mailbox_id
  pub forwards_to : r.mailbox_email ≡ mailbox.email

-- The rows behind a contact that is found by its reverse alias.
pub record ContactRow (db : Db) (c : ContactWithAlias) : Type 0 where
  pub row : AliasWithMailbox
  pub alias_row : AliasRow db row
  pub contact_stored : In c.contact db.contacts
  pub belongs : row.alias.alias_id ≡ c.contact.alias_id
  pub address : c.alias_address ≡ row.alias.address
  pub enabled : c.alias_enabled ≡ row.alias.enabled
  pub mailbox : c.mailbox_email ≡ row.mailbox_email

-- A query that joins returns rows that are stored, linked by their keys.
join_mailbox_sound :
    (ms : List Mailbox) (aliases : List Alias) {r : AliasWithMailbox}
    → In r (join_mailbox ms aliases)
    → (m : Mailbox) × In r.alias aliases
      × In m ms
      × (m.mailbox_id ≡ r.alias.mailbox_id)
      × (r.mailbox_email ≡ m.email)
unfolding join_mailbox
join_mailbox_sound ms [] h = elim h [ ]
join_mailbox_sound ms (a ∷ rest) {r} h =
    from (find (λ m. eq_text m.mailbox_id a.mailbox_id) ms) refl (λ k. join_mailbox_sound ms rest k)
      h
  where
    from :
        (o : Option Mailbox)
        → find (λ m. eq_text m.mailbox_id a.mailbox_id) ms ≡ o
        → (In r (join_mailbox ms rest)
            → (m : Mailbox) × In r.alias rest
              × In m ms
              × (m.mailbox_id ≡ r.alias.mailbox_id)
              × (r.mailbox_email ≡ m.email))
        → In r (joined a o (join_mailbox ms rest))
        → (m : Mailbox) × In r.alias (a ∷ rest)
          × In m ms
          × (m.mailbox_id ≡ r.alias.mailbox_id)
          × (r.mailbox_email ≡ m.email)
    from none e again k = let (m, i, j, p, q) = again k in (m, later i, j, p, q)
    from (some m) e again (head k) =
        let s = find_sound (λ (m : Mailbox). eq_text m.mailbox_id a.mailbox_id) ms e in
        (
          m,
          head (ap (λ (x : AliasWithMailbox). x.alias) k),
          s.1,
          (eq_text_iff m.mailbox_id a.mailbox_id).0 s.0
              ∙ ap (λ (x : AliasWithMailbox). x.alias.mailbox_id) (sym k),
          ap (λ (x : AliasWithMailbox). x.mailbox_email) k,
        )
    from (some m) e again (later k) = let (m', i, j, p, q) = again k in (m', later i, j, p, q)

pub alias_at_sound :
    (address : Text) (db : Db) {r : AliasWithMailbox}
    → alias_at address db ≡ some r
    → AliasRow db r × (r.alias.address ≡ address)
unfolding alias_at
alias_at_sound address db {r} h =
    let s = find_sound (has_address address) (join_mailbox db.mailboxes db.aliases) h in
    let (m, i, j, p, q) = join_mailbox_sound db.mailboxes db.aliases s.1 in
    (
      record { mailbox = m; alias_stored = i; mailbox_stored = j; linked = p; forwards_to = q },
      (eq_text_iff r.alias.address address).0 s.0,
    )

abbrev with_alias : Contact → AliasWithMailbox → ContactWithAlias
with_alias c r = record {
  contact = c;
  alias_address = r.alias.address;
  alias_enabled = r.alias.enabled;
  mailbox_email = r.mailbox_email;
}

join_alias_sound :
    (rows : List AliasWithMailbox) (contacts : List Contact) {c : ContactWithAlias}
    → In c (join_alias rows contacts)
    → (r : AliasWithMailbox) × In r rows
      × In c.contact contacts
      × (r.alias.alias_id ≡ c.contact.alias_id)
      × (c ≡ with_alias c.contact r)
unfolding join_alias
join_alias_sound rows [] h = elim h [ ]
join_alias_sound rows (k ∷ rest) {c} h =
    from (find (λ r. eq_text r.alias.alias_id k.alias_id) rows) refl
      (λ m. join_alias_sound rows rest m) h
  where
    from :
        (o : Option AliasWithMailbox)
        → find (λ r. eq_text r.alias.alias_id k.alias_id) rows ≡ o
        → (In c (join_alias rows rest)
            → (r : AliasWithMailbox) × In r rows
              × In c.contact rest
              × (r.alias.alias_id ≡ c.contact.alias_id)
              × (c ≡ with_alias c.contact r))
        → In c (Contact.joined k o (join_alias rows rest))
        → (r : AliasWithMailbox) × In r rows
          × In c.contact (k ∷ rest)
          × (r.alias.alias_id ≡ c.contact.alias_id)
          × (c ≡ with_alias c.contact r)
    from none e again m = let (r, i, j, p, q) = again m in (r, i, later j, p, q)
    from (some r) e again (head m) =
        let s = find_sound (λ (r : AliasWithMailbox). eq_text r.alias.alias_id k.alias_id) rows e in
        (
          r,
          s.1,
          head (ap (λ (x : ContactWithAlias). x.contact) m),
          (eq_text_iff r.alias.alias_id k.alias_id).0 s.0
              ∙ ap (λ (x : ContactWithAlias). x.contact.alias_id) (sym m),
          ground arith,
        )
    from (some r) e again (later m) = let (r', i, j, p, q) = again m in (r', i, later j, p, q)

pub contact_at_sound :
    (address : Text) (db : Db) {c : ContactWithAlias}
    → contact_at address db ≡ some c
    → ContactRow db c × (c.contact.reverse_alias ≡ address)
unfolding contact_at
contact_at_sound address db {c} h =
    let rows = join_mailbox db.mailboxes db.aliases in
    let s = find_sound (has_reverse_alias address) (join_alias rows db.contacts) h in
    let (r, i, j, p, q) = join_alias_sound rows db.contacts s.1 in
    let (m, a, b, l, f) = join_mailbox_sound db.mailboxes db.aliases i in
    (
      record {
        row = r;
        alias_row = record {
          mailbox = m;
          alias_stored = a;
          mailbox_stored = b;
          linked = l;
          forwards_to = f;
        };
        contact_stored = j;
        belongs = p;
        address = ap (λ (x : ContactWithAlias). x.alias_address) q;
        enabled = ap (λ (x : ContactWithAlias). x.alias_enabled) q;
        mailbox = ap (λ (x : ContactWithAlias). x.mailbox_email) q;
      },
      (eq_text_iff c.contact.reverse_alias address).0 s.0,
    )
