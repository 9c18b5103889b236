-- ===== src/Consistency/Lookups.antt =====
-- In consistent tables a look-up by a key finds the row that has it, through the joins as well.
use weiterleitung.Prelude.{
  ◌≡◌, refl, sym, ◌∙◌, Bool, true, false, List, [], ◌∷◌, find, unique, any-In-false, In, head,
  later, Option, none, some, arith, and-true,
}
use weiterleitung.Text.{Text, eq_text, eq_text_refl}
use weiterleitung.Database.{Db, Mailbox, Alias, AliasWithMailbox, Contact, ContactWithAlias}
use weiterleitung.Alias
use weiterleitung.Alias.{join_mailbox}
use weiterleitung.Contact
use weiterleitung.Contact.{join_alias, has_reverse_alias, contact_at}
use weiterleitung.Consistency.{
  IsConsistent, mailboxes_distinct, aliases_distinct, contacts_distinct,
}

-- The first row of a table with unique keys is not the row of another key.
other_key :
    {A : Type 0} (key : A → Text) (y : A) (ys : List A) {x : A}
    → unique (λ a b. eq_text (key a) (key b)) (y ∷ ys) ≡ true
    → In x ys
    → eq_text (key y) (key x) ≡ false
unfolding unique
other_key key y ys u i = any-In-false (λ b. eq_text (key y) (key b)) ys (ground arith) i

unique_rest :
    {A : Type 0} (same : A → A → Bool) (y : A) (ys : List A)
    → unique same (y ∷ ys) ≡ true
    → unique same ys ≡ true
unfolding unique
unique_rest same y ys u = ground arith

unique-find :
    {A : Type 0} (key : A → Text) (xs : List A) {x : A}
    → unique (λ a b. eq_text (key a) (key b)) xs ≡ true
    → In x xs
    → find (λ y. eq_text (key y) (key x)) xs ≡ some x
unfolding find
unique-find key [] u i = elim i [ ]
unique-find key (y ∷ ys) u (head q) = rw q (rw (eq_text_refl (key y)) refl)
unique-find key (y ∷ ys) u (later i) =
    rw (other_key key y ys u i) (unique-find key ys (unique_rest _ y ys u) i)

abbrev pub row_of : Alias → Mailbox → AliasWithMailbox
row_of a m = record { alias = a; mailbox_email = m.email }

skip_alias :
    (id : Text) (b : Alias) (o : Option Mailbox) (rows : List AliasWithMailbox)
    → eq_text b.alias_id id ≡ false
    → find (λ r. eq_text r.alias.alias_id id) (Alias.joined b o rows)
      ≡ find (λ r. eq_text r.alias.alias_id id) rows
unfolding find
skip_alias id b none rows h = refl
skip_alias id b (some m) rows h = rw h refl

join_mailbox-find :
    (ms : List Mailbox) (rows : List Alias) (a : Alias) (m : Mailbox)
    → unique (λ a b. eq_text a.alias_id b.alias_id) rows ≡ true
    → In a rows
    → find (λ m. eq_text m.mailbox_id a.mailbox_id) ms ≡ some m
    → find (λ r. eq_text r.alias.alias_id a.alias_id) (join_mailbox ms rows) ≡ some (row_of a m)
unfolding find join_mailbox
join_mailbox-find ms [] a m u i f = elim i [ ]
join_mailbox-find ms (b ∷ rows) a m u (head q) f =
    rw (sym q) (rw f (rw (eq_text_refl a.alias_id) refl))
join_mailbox-find ms (b ∷ rows) a m u (later i) f =
    skip_alias a.alias_id b _ (join_mailbox ms rows) (other_key (λ a. a.alias_id) b rows u i)
    ∙ join_mailbox-find ms rows a m (unique_rest _ b rows u) i f

skip_contact :
    (address : Text) (b : Contact) (o : Option AliasWithMailbox) (rows : List ContactWithAlias)
    → eq_text b.reverse_alias address ≡ false
    → find (has_reverse_alias address) (Contact.joined b o rows)
      ≡ find (has_reverse_alias address) rows
unfolding find
skip_contact address b none rows h = refl
skip_contact address b (some r) rows h = rw h refl

abbrev pub contact_row : Contact → AliasWithMailbox → ContactWithAlias
contact_row c r = record {
  contact = c;
  alias_address = r.alias.address;
  alias_enabled = r.alias.enabled;
  mailbox_email = r.mailbox_email;
}

join_alias-find :
    (rows : List AliasWithMailbox) (cs : List Contact) (c : Contact) (r : AliasWithMailbox)
    → unique (λ a b. eq_text a.reverse_alias b.reverse_alias) cs ≡ true
    → In c cs
    → find (λ r. eq_text r.alias.alias_id c.alias_id) rows ≡ some r
    → find (has_reverse_alias c.reverse_alias) (join_alias rows cs) ≡ some (contact_row c r)
unfolding find join_alias
join_alias-find rows [] c r u i f = elim i [ ]
join_alias-find rows (b ∷ cs) c r u (head q) f =
    rw (sym q) (rw f (rw (eq_text_refl c.reverse_alias) refl))
join_alias-find rows (b ∷ cs) c r u (later i) f =
    skip_contact c.reverse_alias b _ (join_alias rows cs)
      (other_key (λ c. c.reverse_alias) b cs u i)
    ∙ join_alias-find rows cs c r (unique_rest _ b cs u) i f

-- A contact with its alias and its mailbox is what the look-up of its reverse alias finds.
pub contact_at-In :
    (db : Db) (c : Contact) (a : Alias) (m : Mailbox)
    → IsConsistent db
    → In c db.contacts
    → In a db.aliases
    → In m db.mailboxes
    → c.alias_id ≡ a.alias_id
    → a.mailbox_id ≡ m.mailbox_id
    → contact_at c.reverse_alias db ≡ some (contact_row c (row_of a m))
unfolding contact_at mailboxes_distinct aliases_distinct contacts_distinct
contact_at-In db c a m k ic ia im ca am =
    let um = (and-true _ _ k.mailboxes).0 in
    let ua = (and-true _ _ k.aliases).0 in
    let uc = (and-true _ _ (and-true _ _ k.contacts).1).0 in
    join_alias-find (join_mailbox db.mailboxes db.aliases) db.contacts c (row_of a m) uc ic (
      rw ca (
        join_mailbox-find db.mailboxes db.aliases a m ua ia
          (rw am (unique-find (λ m. m.mailbox_id) db.mailboxes um im))))
