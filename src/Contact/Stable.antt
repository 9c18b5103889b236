-- ===== src/Contact/Stable.antt =====
-- A contact is stable: it is found again for the same alias and the same address.
use weiterleitung.Prelude.{
  ◌≡◌, refl, ◌∙◌, ap, true, [], find, find_sound, and-true, In, Option, none, some, ok, arith,
}
use weiterleitung.Text.{Text, Unicode, eq_text, eq_text_iff}
use weiterleitung.Domain.EmailAddress.{EmailAddress, normalised}
use weiterleitung.Database.{Db, World, Contact}
use weiterleitung.Database.Exec.{Exec, pure, fail, gets, ◌>>=◌, attempt, select, execute}
use weiterleitung.Database.Frame.{>>=-eq-ok}
use weiterleitung.Database.Run.{select_ok, new_uuid_ok, now_ok, unmap_ok, execute_ok, pure_ok}
use weiterleitung.Alias.Generator.{random_token}
use weiterleitung.Contact.{
  is_pair, find_contact, insert_row, or_disappeared, create_contact, or_create,
  get_or_create_contact,
}

-- The search of `find_contact`.
abbrev pub contact_of : Text → Text → Db → Option Contact
contact_of alias_id email db = find (is_pair alias_id email) db.contacts

or_disappeared-eq-ok :
    (o : Option Contact) (w : World) {c : Contact} {v : World}
    → or_disappeared o w ≡ (ok c, v)
    → (o ≡ some c) × (v ≡ w)
unfolding pure fail
or_disappeared-eq-ok none w h = cc
or_disappeared-eq-ok (some x) w h = ground arith

create_contact-found :
    (alias_id email : Text) (name : Option Text) (prefix domain : Text) (w : World) {c : Contact}
    {v : World}
    → create_contact alias_id email name prefix domain w ≡ (ok c, v)
    → contact_of alias_id email v.db ≡ some c
unfolding create_contact find_contact
create_contact-found alias_id email name prefix domain w h =
    let h1 = new_uuid_ok _ w h in
    let (token, w1, e, h2) = >>=-eq-ok (random_token 12) _ _ h1 in
    let h3 = unmap_ok _ (execute (insert_row _)) _ w1 (now_ok _ w1 h2) in
    let (fs, db, r, h4) = execute_ok (insert_row _) _ w1 h3 in
    let (gs, h5) =
      select_ok (contact_of alias_id email) _ (record w1 { db = db; faults = fs }) h4 in
    let (p, q) =
      or_disappeared-eq-ok (contact_of alias_id email db) (record w1 { db = db; faults = gs }) h5 in
    ap (λ (x : World). contact_of alias_id email x.db) q ∙ p

or_create-found :
    (alias_id email : Text) (o : Option Contact) (create : Exec Text Contact) (w : World)
    {c : Contact} {v : World}
    → contact_of alias_id email w.db ≡ o
    → (create w ≡ (ok c, v) → contact_of alias_id email v.db ≡ some c)
    → or_create o create w ≡ (ok c, v)
    → contact_of alias_id email v.db ≡ some c
or_create-found alias_id email none create w e f h = f h
or_create-found alias_id email (some x) create w e f h =
    let (p, q) = pure_ok x w h in
    ap (λ (y : World). contact_of alias_id email y.db) q ∙ e ∙ ap some p

is_pair-eq :
    (alias_id email : Text) (c : Contact)
    → is_pair alias_id email c ≡ true
    → (c.alias_id ≡ alias_id) × (c.email ≡ email)
is_pair-eq alias_id email c h =
    let (a, e) = and-true (eq_text c.alias_id alias_id) (eq_text c.email email) h in
    ((eq_text_iff c.alias_id alias_id).0 a, (eq_text_iff c.email email).0 e)

select_clean : {A : Type 0} (q : Db → A) (w : World) → w.faults ≡ [] → select q w ≡ (ok (q w.db), w)
unfolding select gets attempt ◌>>=◌
select_clean q w e = ground arith

module _ ⦃u : Unicode⦄ where
  found :
      (alias_id : Text) (address : EmailAddress) (name : Option Text) (prefix domain : Text)
      (w : World) {c : Contact} {v : World}
      → get_or_create_contact alias_id address name prefix domain w ≡ (ok c, v)
      → contact_of alias_id (normalised address) v.db ≡ some c
  unfolding get_or_create_contact find_contact
  found alias_id address name prefix domain w h =
      let email = normalised address in
      let (fs, k) = select_ok (contact_of alias_id email) _ w h in
      or_create-found alias_id email (contact_of alias_id email w.db) _ (record w { faults = fs })
        refl (create_contact-found alias_id email name prefix domain (record w { faults = fs })) k

  -- A contact of the table, for that alias and that address in its normalised form.
  pub record IsStored (alias_id : Text) (address : EmailAddress) (c : Contact) (db : Db)
      : Type 0 where
    pub stored : In c db.contacts
    pub owner : c.alias_id ≡ alias_id
    pub email : c.email ≡ normalised address

  -- The contact that is returned is stored, for that alias and that address in its normalised form.
  pub get_or_create_contact-IsStored :
      (alias_id : Text) (address : EmailAddress) (name : Option Text) (prefix domain : Text)
      (w : World) {c : Contact} {v : World}
      → get_or_create_contact alias_id address name prefix domain w ≡ (ok c, v)
      → IsStored alias_id address c v.db
  get_or_create_contact-IsStored alias_id address name prefix domain w {c} {v} h =
      let email = normalised address in
      let e = found alias_id address name prefix domain w h in
      let (pair, stored) = find_sound (is_pair alias_id email) v.db.contacts e in
      let (a, m) = is_pair-eq alias_id email c pair in
      record { stored = stored; owner = a; email = m }

  -- Once a contact was returned for an alias and an address, asking again for them where no
  -- operation fails, under whatever name, prefix and domain, gives the same contact and changes
  -- nothing.
  pub get_or_create_contact_again :
      (alias_id : Text) (address : EmailAddress) (name : Option Text) (prefix domain : Text)
      (w : World) {c : Contact} {v : World} (name2 : Option Text) (prefix2 domain2 : Text)
      → get_or_create_contact alias_id address name prefix domain w ≡ (ok c, v)
      → v.faults ≡ []
      → get_or_create_contact alias_id address name2 prefix2 domain2 v ≡ (ok c, v)
  unfolding get_or_create_contact find_contact ◌>>=◌ pure
  get_or_create_contact_again alias_id address name prefix domain w {c} {v} name2 prefix2 domain2 h
        clean =
      rw (select_clean (contact_of alias_id (normalised address)) v clean)
        (rw (found alias_id address name prefix domain w h) refl)
