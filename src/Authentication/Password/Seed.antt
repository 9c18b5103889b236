-- ===== src/Authentication/Password/Seed.antt =====
-- The administrator that is seeded at the start can log in.
use weiterleitung.Prelude.{
  ℕ, ◌≡◌, refl, sym, ap, subst, inl, inr, true, false, Bool-cases, any, find, List, [], ◌∷◌, ◌++◌,
  some, ok, arith,
}
use weiterleitung.Text.{Text, eq_text_refl}
use weiterleitung.Database.{Db, World, User}
use weiterleitung.Database.Exec.{pure, lift, gets, ◌>>=◌, map_err, attempt, select, execute}
use weiterleitung.Database.Frame.{>>=-eq-ok, map_err-eq-ok, execute-eq-ok}
use weiterleitung.Database.Run.{unmap_ok, attempt_ok, new_uuid_ok, now_ok}
use weiterleitung.Authentication.Password.{
  verify_password_hash, hash_with, PasswordHashing, has_username, get_stored_credentials,
  set_password, upsert_row, draw_salt, compute_password_hash, validate_credentials, seed_admin_user,
}
use weiterleitung.Authentication.Password.Login.{row_of}

-- The row of a user name, with the hash that it was given.
abbrev pub HasHash : Text → Text → List User → Type 0
HasHash username h us =
    (x : User) × (find (has_username username) us ≡ some x) × (x.password_hash ≡ h)

set_password-HasHash :
    (username h : Text) (us : List User)
    → any (has_username username) us ≡ true
    → HasHash username h (set_password username h us)
unfolding set_password any find
set_password-HasHash username h [] e = cc
set_password-HasHash username h (u ∷ us) e = elim (Bool-cases (has_username username u)) [
  | inl t ↦ (record u { password_hash = h }, ground arith, refl)
  | inr f ↦
      let (x, p, q) = set_password-HasHash username h us (ground arith) in (x, ground arith, q)
]

append-HasHash :
    (u : User) (us : List User)
    → any (has_username u.username) us ≡ false
    → HasHash u.username u.password_hash (us ++ (u ∷ []))
unfolding any find
append-HasHash u [] e = (u, rw (eq_text_refl u.username) refl, refl)
append-HasHash u (k ∷ us) e = elim (Bool-cases (has_username u.username k)) [
  | inl t ↦ absurd (let q : any (has_username u.username) (k ∷ us) ≡ true = ground arith in cc)
  | inr f ↦ let (x, p, q) = append-HasHash u us (ground arith) in (x, ground arith, q)
]

upsert_row-HasHash :
    (u : User) (db : Db) {d : Db}
    → upsert_row u db ≡ ok d
    → HasHash u.username u.password_hash d.users
unfolding upsert_row
upsert_row-HasHash u db {d} h = elim (Bool-cases (any (has_username u.username) db.users)) [
  | inl t ↦
      let q : d ≡ record db { users = set_password u.username u.password_hash db.users } =
        ground arith in
      subst (λ (y : Db). HasHash u.username u.password_hash y.users) (sym q)
        (set_password-HasHash u.username u.password_hash db.users t)
  | inr f ↦
      let q : d ≡ record db { users = db.users ++ (u ∷ []) } = ground arith in
      subst (λ (y : Db). HasHash u.username u.password_hash y.users) (sym q)
        (append-HasHash u db.users f)
]

-- A hash of a password verifies against it, whatever the salt.
abbrev pub Verifies : PasswordHashing → Type 0
Verifies hashing =
    (password : Text) (salt : ℕ) (h : Text)
    → hash_with hashing password salt ≡ ok h
    → verify_password_hash hashing h password ≡ ok tt

pub seeded :
    (hashing : PasswordHashing) (username password : Text) (w : World) {t : Unit {0}} {v : World}
    → seed_admin_user hashing username password w ≡ (ok t, v)
    → (salt : ℕ) × (h : Text) × (hash_with hashing password salt ≡ ok h)
      × HasHash username h v.db.users
unfolding seed_admin_user compute_password_hash draw_salt lift ◌>>=◌
seeded hashing username password w {t} {v} s =
    let (gs, s1) = attempt_ok _ w (unmap_ok _ attempt _ w s) in
    let (h, w1, m, s2) = >>=-eq-ok (compute_password_hash hashing password) _ _ s1 in
    let (fs, d, r, q) =
      execute-eq-ok (upsert_row _) _
        (map_err-eq-ok _ (execute (upsert_row _)) _ (now_ok _ _ (new_uuid_ok _ w1 s2))) in
    (
      w.drawn,
      h,
      ap (λ p. p.0) m,
      subst (λ (x : World). HasHash username h x.db.users) (sym q) (upsert_row-HasHash _ _ r),
    )

pub let_in :
    (hashing : PasswordHashing) (username password : Text) (v : World) (x : User)
    → row_of username v.db ≡ some x
    → verify_password_hash hashing x.password_hash password ≡ ok tt
    → v.faults ≡ []
    → validate_credentials hashing (record { username = username; password = password }) v
      ≡ (ok x.user_id, v)
unfolding validate_credentials get_stored_credentials ◌>>=◌ map_err select attempt gets lift pure
let_in hashing username password v x r m clean = rw clean (rw r (rw m refl))

-- Once the administrator has been seeded, whether the name was there before or not, the username and
-- the password of the configuration are accepted where no operation fails, and nothing changes.
pub validate_credentials-seed_admin_user :
    (hashing : PasswordHashing) (username password : Text) (w : World) {t : Unit {0}} {v : World}
    → Verifies hashing
    → seed_admin_user hashing username password w ≡ (ok t, v)
    → v.faults ≡ []
    → (id : Text) × (validate_credentials hashing
          (record { username = username; password = password })
          v
        ≡ (ok id, v))
validate_credentials-seed_admin_user hashing username password w {t} {v} law s clean =
    let (salt, h, m, (x, r, e)) = seeded hashing username password w s in
    (
      x.user_id,
      let_in hashing username password v x r
          (subst (λ y. verify_password_hash hashing y password ≡ ok tt) (sym e)
            (law password salt h m))
          clean,
    )
