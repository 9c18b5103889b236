-- ===== src/Consistency/Mailboxes.antt =====
-- The mailboxes and the users: a default mailbox is the only one, and a deleted mailbox takes its
-- aliases with it.
use weiterleitung.Prelude.{
  ◌≡◌, refl, sym, ◌∙◌, ap, subst, inl, inr, Bool, true, false, not, ◌&&◌, ◌||◌, Bool-cases, List,
  [], ◌∷◌, ◌++◌, map, any, keep, any-or, any-map, all_weaken, all-keep, any-keep, unique-append,
  unique-keep, unique-map, unique-map_same, unique-false, ok, arith, and-true, if◌then◌else◌,
}
use weiterleitung.Text.{Text, eq_text, eq_text_iff}
use weiterleitung.Database.{Db, World, Mailbox, Alias}
use weiterleitung.Database.Schema.{delete_aliases}
use weiterleitung.Database.Exec.{Exec, pure, map_err, execute}
use weiterleitung.Database.Frame.{
  Steps, Steps-execute, Steps-run, Steps-pure, >>=-intro, execute-intro, execute-eq-ok,
}
use weiterleitung.Mailbox
use weiterleitung.Mailbox.{clear_default, insert_writes}
use weiterleitung.Consistency.{
  IsConsistent, Keeps, Keeps-IsFrame, mailboxes_distinct, one_default, aliases_linked, has_mailbox,
}
use weiterleitung.Consistency.Rows.{has_more, ok_eq}
use weiterleitung.Consistency.Deletes.{delete_aliases-IsConsistent}

abbrev taken : Mailbox → List Mailbox → Bool
taken m ms = any (λ k. eq_text k.mailbox_id m.mailbox_id || eq_text k.email m.email) ms

insert_mailbox-eq-ok :
    (m : Mailbox) (db : Db) {d : Db}
    → Mailbox.insert_row m db ≡ ok d
    → (taken m db.mailboxes ≡ false) × (record db { mailboxes = db.mailboxes ++ (m ∷ []) } ≡ d)
unfolding Mailbox.insert_row
insert_mailbox-eq-ok m db h = elim (Bool-cases (taken m db.mailboxes)) [
  | inl e ↦ ground arith
  | inr e ↦ ground arith
]

mailboxes_more :
    (m : Mailbox) (ms : List Mailbox)
    → taken m ms ≡ false
    → mailboxes_distinct ms ≡ true
    → mailboxes_distinct (ms ++ (m ∷ [])) ≡ true
unfolding mailboxes_distinct
mailboxes_more m ms h k =
    let (i, j) =
      any-or (λ k. eq_text k.mailbox_id m.mailbox_id) (λ k. eq_text k.email m.email) ms h in
    let (x, y) = and-true _ _ k in
    rw
      (
        unique-append (λ (a b : Mailbox). eq_text a.mailbox_id b.mailbox_id) m ms i x,
        unique-append (λ (a b : Mailbox). eq_text a.email b.email) m ms j y,
      )
      refl

aliases_linked_weaken :
    (ms ms2 : List Mailbox) (rows : List Alias)
    → ((key : Text) → has_mailbox ms key ≡ true → has_mailbox ms2 key ≡ true)
    → aliases_linked ms rows ≡ true
    → aliases_linked ms2 rows ≡ true
unfolding aliases_linked
aliases_linked_weaken ms ms2 rows f h = all_weaken _ _ rows (λ a. f a.mailbox_id) h

-- No other mailbox is the default, if this one is.
abbrev NoRival : Mailbox → Db → Type 0
NoRival m db = any (λ k. k.is_default && m.is_default) db.mailboxes ≡ false

insert_row-IsConsistent :
    (m : Mailbox) (db : Db) {d : Db}
    → Mailbox.insert_row m db ≡ ok d
    → NoRival m db
    → IsConsistent db
    → IsConsistent d
unfolding one_default
insert_row-IsConsistent m db h rival c =
    let (e, q) = insert_mailbox-eq-ok m db h in
    subst IsConsistent q (record {
      users = c.users;
      mailboxes = mailboxes_more m db.mailboxes e c.mailboxes;
      default =
          unique-append (λ (a b : Mailbox). a.is_default && b.is_default) m db.mailboxes rival
            c.default;
      aliases = c.aliases;
      contacts = c.contacts;
      outbox = c.outbox;
      alias_links =
          aliases_linked_weaken db.mailboxes _ db.aliases
            (λ key. has_more (λ m. eq_text m.mailbox_id key) db.mailboxes (m ∷ [])) c.alias_links;
      contact_links = c.contact_links;
      outbox_links = c.outbox_links;
    })

abbrev cleared : Mailbox → Mailbox
cleared m = record m { is_default = false }

none_default :
    (b : Bool) (ms : List Mailbox) → any (λ k. k.is_default && b) (map cleared ms) ≡ false
unfolding any
none_default b [] = refl
none_default b (m ∷ ms) = none_default b ms

cleared-IsConsistent :
    (db : Db) → IsConsistent db → IsConsistent (record db { mailboxes = map cleared db.mailboxes })
unfolding mailboxes_distinct one_default
cleared-IsConsistent db c = record {
  users = c.users;
  mailboxes =
      rw
        (
          unique-map (λ (a b : Mailbox). eq_text a.mailbox_id b.mailbox_id) cleared db.mailboxes
              (λ x y. refl),
          unique-map (λ (a b : Mailbox). eq_text a.email b.email) cleared db.mailboxes
              (λ x y. refl),
        )
        c.mailboxes;
  default =
      unique-map_same (λ (a b : Mailbox). a.is_default && b.is_default) cleared db.mailboxes
      ∙ unique-false (λ a b. false) db.mailboxes (λ x y. refl);
  aliases = c.aliases;
  contacts = c.contacts;
  outbox = c.outbox;
  alias_links =
      aliases_linked_weaken db.mailboxes _ db.aliases
        (λ key h. any-map (λ m. eq_text m.mailbox_id key) cleared db.mailboxes ∙ h) c.alias_links;
  contact_links = c.contact_links;
  outbox_links = c.outbox_links;
}

-- The insertion, from a world where the mailbox has no rival.
insert-Keeps :
    (m : Mailbox) (w : World)
    → NoRival m w.db
    → IsConsistent w.db
    → IsConsistent (execute (Mailbox.insert_row m) w).1.db
insert-Keeps m w rival c =
    execute-intro (λ v. IsConsistent v.db) (Mailbox.insert_row m) w
      (λ fs db e. insert_row-IsConsistent m w.db e rival c) (λ fs. c)

no_rival :
    (m : Mailbox) (ms : List Mailbox)
    → m.is_default ≡ false
    → any (λ k. k.is_default && m.is_default) ms ≡ false
unfolding any
no_rival m [] h = refl
no_rival m (k ∷ ms) h = let r = no_rival m ms h in ground arith

abbrev clear_if : Bool → Exec Text (Unit {0})
clear_if b = if b then execute clear_default else pure tt

clear_if-NoRival :
    (b : Bool) (m : Mailbox) (w : World) {t : Unit {0}} {u : World}
    → m.is_default ≡ b
    → clear_if b w ≡ (ok t, u)
    → NoRival m u.db
unfolding clear_default pure
clear_if-NoRival false m w q e = no_rival m _ q
clear_if-NoRival true m w {t} {u} q e =
    let (gs, db, r, s) = execute-eq-ok clear_default w e in
    let p : record w.db { mailboxes = map cleared w.db.mailboxes } ≡ db = ground arith in
    subst (λ (v : World). NoRival m v.db) (sym s)
      (subst (NoRival m) p (none_default m.is_default w.db.mailboxes))

clear_if-Keeps : (b : Bool) → Steps Keeps (clear_if b)
unfolding clear_default
clear_if-Keeps false = Steps-pure Keeps-IsFrame tt
clear_if-Keeps true = Steps-execute Keeps-IsFrame clear_default (λ w db e c.
    let p : record w.db { mailboxes = map cleared w.db.mailboxes } ≡ db = ground arith in
    subst IsConsistent p (cleared-IsConsistent w.db c))

-- A new default mailbox has no rival, since the old one is cleared before it is inserted.
pub insert_writes-Keeps : (m : Mailbox) → Steps Keeps (insert_writes m)
unfolding insert_writes map_err
insert_writes-Keeps m = record {
  at = λ w c.
      >>=-intro (λ v. IsConsistent v.db) (clear_if m.is_default) _ w
        (λ t u e.
          insert-Keeps m u (clear_if-NoRival m.is_default m w refl e)
            (Steps-run (clear_if-Keeps m.is_default) w e c))
        (λ x u e. Steps-run (clear_if-Keeps m.is_default) w e c);
}

-- The mailboxes that a deletion leaves, with the aliases that it leaves.
left-aliases_linked :
    (id : Text) (ms : List Mailbox) (rows : List Alias)
    → aliases_linked ms rows ≡ true
    → aliases_linked
        (keep (λ m. not (eq_text m.mailbox_id id)) ms)
        (keep (λ a. not (eq_text a.mailbox_id id)) rows)
      ≡ true
unfolding aliases_linked
left-aliases_linked id ms rows h =
    all-keep (λ a. has_mailbox ms a.mailbox_id) (λ a. not (eq_text a.mailbox_id id)) _ rows
      (λ a k n.
        any-keep (λ m. eq_text m.mailbox_id a.mailbox_id) (λ m. not (eq_text m.mailbox_id id)) ms
          (λ m e. ap (λ x. not (eq_text x id)) ((eq_text_iff m.mailbox_id a.mailbox_id).0 e) ∙ n) k)
      h

pub delete_mailbox-IsConsistent :
    (id : Text) (db : Db) {d : Db}
    → Mailbox.delete_row id db ≡ ok d
    → IsConsistent db
    → IsConsistent d
unfolding Mailbox.delete_row delete_aliases mailboxes_distinct one_default
delete_mailbox-IsConsistent id db {d} h c =
    let rest = delete_aliases-IsConsistent (λ a. eq_text a.mailbox_id id) db c in
    let (x, y) = and-true _ _ c.mailboxes in
    let deleted = delete_aliases (λ a. eq_text a.mailbox_id id) db in
    let q : record deleted { mailboxes = keep (λ m. not (eq_text m.mailbox_id id)) db.mailboxes }
        ≡ d =
      ok_eq h in
    subst IsConsistent q (record {
      users = rest.users;
      mailboxes =
          rw
            (
              unique-keep (λ (a b : Mailbox). eq_text a.mailbox_id b.mailbox_id) _ db.mailboxes x,
              unique-keep (λ (a b : Mailbox). eq_text a.email b.email) _ db.mailboxes y,
            )
            refl;
      default =
          unique-keep (λ (a b : Mailbox). a.is_default && b.is_default) _ db.mailboxes c.default;
      aliases = rest.aliases;
      contacts = rest.contacts;
      outbox = rest.outbox;
      alias_links = left-aliases_linked id db.mailboxes db.aliases c.alias_links;
      contact_links = rest.contact_links;
      outbox_links = rest.outbox_links;
    })
