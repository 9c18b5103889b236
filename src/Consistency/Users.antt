-- ===== src/Consistency/Users.antt =====
-- Seeding the administrator keeps the tables consistent: a name that is there gets a new hash, and no
-- second row.
use weiterleitung.Prelude.{
  ◌≡◌, refl, ap, subst, inl, inr, true, false, Bool-cases, List, [], ◌∷◌, ◌++◌, map, any,
  unique-append, unique-map, ok, arith, and-true, if◌then◌else◌,
}
use weiterleitung.Text.{Text, eq_text}
use weiterleitung.Database.{Db, User}
use weiterleitung.Authentication.Password.{has_username, set_password, upsert_row}
use weiterleitung.Consistency.{IsConsistent, users_distinct}

abbrev with_hash : Text → Text → User → User
with_hash username h u = if has_username username u then record u { password_hash = h } else u

set_password-map :
    (username h : Text) (us : List User)
    → set_password username h us ≡ map (with_hash username h) us
unfolding set_password
set_password-map username h [] = refl
set_password-map username h (u ∷ us) =
    ap (λ xs. with_hash username h u ∷ xs) (set_password-map username h us)

with_hash-user_id : (username h : Text) (u : User) → (with_hash username h u).user_id ≡ u.user_id
with_hash-user_id username h u = elim (Bool-cases (has_username username u)) [
  | inl e ↦ rw e refl
  | inr e ↦ rw e refl
]

with_hash-username : (username h : Text) (u : User) → (with_hash username h u).username ≡ u.username
with_hash-username username h u = elim (Bool-cases (has_username username u)) [
  | inl e ↦ rw e refl
  | inr e ↦ rw e refl
]

users_distinct-set_password :
    (username h : Text) (us : List User)
    → users_distinct us ≡ true
    → users_distinct (set_password username h us) ≡ true
unfolding users_distinct
users_distinct-set_password username h us k =
    let g = with_hash username h in
    rw
      (
        set_password-map username h us,
        unique-map (λ (a b : User). eq_text a.user_id b.user_id) g us
            (λ x y. rw (with_hash-user_id username h x, with_hash-user_id username h y) refl),
        unique-map (λ (a b : User). eq_text a.username b.username) g us
            (λ x y. rw (with_hash-username username h x, with_hash-username username h y) refl),
      )
      k

users_more :
    (u : User) (us : List User)
    → any (has_username u.username) us ≡ false
    → any (λ k. eq_text k.user_id u.user_id) us ≡ false
    → users_distinct us ≡ true
    → users_distinct (us ++ (u ∷ [])) ≡ true
unfolding users_distinct
users_more u us n i k =
    let (x, y) = and-true _ _ k in
    rw
      (
        unique-append (λ (a b : User). eq_text a.user_id b.user_id) u us i x,
        unique-append (λ (a b : User). eq_text a.username b.username) u us n y,
      )
      refl

with_users :
    (db : Db) (us : List User)
    → users_distinct us ≡ true
    → IsConsistent db
    → IsConsistent (record db { users = us })
with_users db us h c = record {
  users = h;
  mailboxes = c.mailboxes;
  default = c.default;
  aliases = c.aliases;
  contacts = c.contacts;
  outbox = c.outbox;
  alias_links = c.alias_links;
  contact_links = c.contact_links;
  outbox_links = c.outbox_links;
}

pub upsert_row-IsConsistent :
    (u : User) (db : Db) {d : Db} → upsert_row u db ≡ ok d → IsConsistent db → IsConsistent d
unfolding upsert_row
upsert_row-IsConsistent u db {d} h c = elim (Bool-cases (any (has_username u.username) db.users)) [
  | inl e ↦
      let q : record db { users = set_password u.username u.password_hash db.users } ≡ d =
        ground arith in
      subst IsConsistent q (
        with_users db _ (users_distinct-set_password u.username u.password_hash db.users c.users) c)
  | inr e ↦ elim (Bool-cases (any (λ k. eq_text k.user_id u.user_id) db.users)) [
    | inl f ↦ ground arith
    | inr f ↦
        let q : record db { users = db.users ++ (u ∷ []) } ≡ d = ground arith in
        subst IsConsistent q (with_users db _ (users_more u db.users e f c.users) c)
  ]
]
