-- ===== src/Alias/Created.antt =====
-- An alias that was inserted is found again by its address.
use weiterleitung.Prelude.{
  ◌≡◌, refl, sym, ◌∙◌, subst, inl, inr, Bool, true, false, ◌||◌, Bool-cases, List, [], ◌∷◌, ◌++◌,
  any, any-or, find, Option, none, some, ok, arith,
}
use weiterleitung.Text.{Text, Unicode, eq_text, eq_text_refl}
use weiterleitung.Domain.EmailAddress.{EmailAddress, normalised}
use weiterleitung.Database.{Db, World, Mailbox, Alias, AliasWithMailbox}
use weiterleitung.Database.Exec.{execute}
use weiterleitung.Database.Run.{new_uuid_ok, now_ok, unmap_ok, execute_ok, pure_ok}
use weiterleitung.Alias.{insert_row, insert_alias, joined, join_mailbox, has_address, alias_at}

abbrev pub mailbox_of : Text → List Mailbox → Option Mailbox
mailbox_of id ms = find (λ m. eq_text m.mailbox_id id) ms

-- A row that the search passes by.
find-joined :
    (address : Text) (a : Alias) (o : Option Mailbox) (rows : List AliasWithMailbox)
    → eq_text a.address address ≡ false
    → find (has_address address) (joined a o rows) ≡ find (has_address address) rows
unfolding find
find-joined address a none rows h = refl
find-joined address a (some m) rows h = rw h refl

find_last :
    (ms : List Mailbox) (rows : List Alias) (a : Alias) (m : Mailbox) (address : Text)
    → any (λ b. eq_text b.address address) rows ≡ false
    → mailbox_of a.mailbox_id ms ≡ some m
    → eq_text a.address address ≡ true
    → find (has_address address) (join_mailbox ms (rows ++ (a ∷ [])))
      ≡ some (record { alias = a; mailbox_email = m.email })
unfolding find any join_mailbox
find_last ms [] a m address h f e = rw f (rw e refl)
find_last ms (b ∷ rows) a m address h f e =
    find-joined address b (mailbox_of b.mailbox_id ms) (join_mailbox ms (rows ++ (a ∷ [])))
      (ground arith)
    ∙ find_last ms rows a m address (ground arith) f e

any-find :
    {A : Type 0} (p : A → Bool) (xs : List A) → any p xs ≡ true → (x : A) × (find p xs ≡ some x)
unfolding any find
any-find p [] h = cc
any-find p (x ∷ xs) h = elim (Bool-cases (p x)) [
  | inl e ↦ (x, rw e refl)
  | inr e ↦ let (y, f) = any-find p xs (ground arith) in (y, rw e f)
]

abbrev taken : Alias → Db → Bool
taken a db = any (λ b. eq_text b.alias_id a.alias_id || eq_text b.address a.address) db.aliases

insert_row-alias_at :
    (a : Alias) (db : Db) {d : Db}
    → insert_row a db ≡ ok d
    → (m : Mailbox) × (mailbox_of a.mailbox_id d.mailboxes ≡ some m)
      × (alias_at a.address d ≡ some (record { alias = a; mailbox_email = m.email }))
unfolding insert_row alias_at
insert_row-alias_at a db {d} h = elim (Bool-cases (taken a db)) [
  | inl e ↦ ground arith
  | inr e ↦ elim (Bool-cases (any (λ m. eq_text m.mailbox_id a.mailbox_id) db.mailboxes)) [
    | inr f ↦ ground arith
    | inl f ↦
        let q : record db { aliases = db.aliases ++ (a ∷ []) } ≡ d = ground arith in
        let (m, g) = any-find (λ m. eq_text m.mailbox_id a.mailbox_id) db.mailboxes f in
        let (i, j) =
          any-or (λ b. eq_text b.alias_id a.alias_id) (λ b. eq_text b.address a.address) db.aliases
            e in
        subst
          (λ (x : Db).
            (m : Mailbox) × (mailbox_of a.mailbox_id x.mailboxes ≡ some m)
            × (alias_at a.address x ≡ some (record { alias = a; mailbox_email = m.email })))
          q (m, g, find_last db.mailboxes db.aliases a m a.address j g (eq_text_refl a.address))
  ]
]

-- The alias is enabled, and the look-up of the address finds it with the address of the mailbox.
abbrev pub IsFound : Text → Text → Alias → Db → Type 0
IsFound address mailbox_id a db =
    (m : Mailbox) × (mailbox_of mailbox_id db.mailboxes ≡ some m)
    × (a.enabled ≡ true)
    × (alias_at address db ≡ some (record { alias = a; mailbox_email = m.email }))

-- An alias that was inserted is enabled, and the look-up of its address in normalised form finds it
-- together with the address of the given mailbox, which exists.
pub insert_alias-IsFound :
    ⦃u : Unicode⦄ (address : EmailAddress) (mailbox_id : Text) (remark : Option Text) (w : World)
    {a : Alias} {v : World}
    → insert_alias address mailbox_id remark w ≡ (ok a, v)
    → IsFound (normalised address) mailbox_id a v.db
unfolding insert_alias
insert_alias-IsFound address mailbox_id remark w {a} {v} h =
    let h1 = now_ok _ _ (new_uuid_ok _ w h) in
    let (gs, db, r, h2) =
      execute_ok (insert_row _) _ _ (unmap_ok _ (execute (insert_row _)) _ _ h1) in
    let (p, q) = pure_ok _ _ h2 in
    let (m, g, f) = insert_row-alias_at _ w.db r in
    subst (λ (x : World). IsFound (normalised address) mailbox_id a x.db) (sym q)
      (subst (λ (y : Alias). IsFound (normalised address) mailbox_id y db) p (m, g, refl, f))
