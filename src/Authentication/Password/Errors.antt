-- ===== src/Authentication/Password/Errors.antt =====
-- Which error of the check of credentials stands for what.
use weiterleitung.Prelude.{
  ◌≡◌, refl, subst, [], ◌∙◌, inl, inr, true, In, Option, none, some, Result, ok, err,
}
use weiterleitung.Text.{Text, lit}
use weiterleitung.Database.{Db, World, User}
use weiterleitung.Database.Exec.{
  Exec, pure, fail, lift, ◌>>=◌, ◌>>◌, map_err, attempt, select, gets, replace,
}
use weiterleitung.Database.Frame.{map_err-eq-ok, select-eq-ok}
use weiterleitung.Authentication.Password.{
  verify_password_hash, verify_parsed, AuthError, invalid_credentials, unexpected_error,
  Credentials, PasswordHashing, stored, expected, or_unknown, get_stored_credentials,
  validate_credentials, spawn_failure,
}
use weiterleitung.Database.Failure.{
  >>=-eq-err, map_err-eq-err, attempt_with-fault, select-fault, select_later,
}
use weiterleitung.Authentication.Password.Login.{row_of}

-- The tail of the check, behind the two operations that may fail.
abbrev after_row : PasswordHashing → Credentials → Option (Text × Text) → Exec AuthError Text
after_row hashing c row = do
  map_err (λ x. invalid_credentials (lit "Invalid password"))
      (lift (verify_password_hash hashing (expected row) c.password))
  or_unknown row

abbrev tail_of : PasswordHashing → Credentials → Option User → Exec AuthError Text
tail_of hashing c o = after_row hashing c (stored o)

passed :
    (hashing : PasswordHashing) (c : Credentials) (x : User) (w : World) {e : Text} {v : World}
    → verify_password_hash hashing x.password_hash c.password ≡ ok tt
    → tail_of hashing c (some x) w ≡ (err (invalid_credentials e), v)
    → ⊥
unfolding ◌>>=◌ map_err lift pure
passed hashing c x w {e} {v} m h =
    let k : ◌≡◌ {A = Result AuthError Text × World} (ok x.user_id, w)
        (err (invalid_credentials e), v) =
      rw m at h in
    cc

-- Why credentials are invalid: nobody has the name, or the stored hash of the user of that name
-- cannot be parsed, or it can, and the password does not match it.
pub data IsRefused (hashing : PasswordHashing) (c : Credentials) (db : Db) : Type 0 where
  unknown_username : row_of c.username db ≡ none → IsRefused hashing c db
  unreadable_hash :
      (u : User) (e : Text)
      → row_of c.username db ≡ some u
      → hashing.parse u.password_hash ≡ err e
      → IsRefused hashing c db
  wrong_password :
      (u : User) (hash e : Text)
      → row_of c.username db ≡ some u
      → hashing.parse u.password_hash ≡ ok hash
      → hashing.verify_password hash c.password ≡ err e
      → IsRefused hashing c db

module _ (hashing : PasswordHashing) (c : Credentials) (db : Db) (u : User)
    (found : row_of c.username db ≡ some u) where
  compared :
      (hash : Text) (r : Result Text (Unit {0}))
      → hashing.parse u.password_hash ≡ ok hash
      → hashing.verify_password hash c.password ≡ r
      → ¬ (replace (λ (e : Text). lit "Invalid password") r ≡ ok tt)
      → IsRefused hashing c db
  compared hash (ok t) p q n = absurd (n refl)
  compared hash (err e) p q n = wrong_password u hash e found p q

  examined :
      (r : Result Text Text)
      → hashing.parse u.password_hash ≡ r
      → ¬ (verify_parsed hashing r c.password ≡ ok tt)
      → IsRefused hashing c db
  examined (err e) p n = unreadable_hash u e found p
  examined (ok hash) p n = compared hash (hashing.verify_password hash c.password) p refl n

refused :
    (hashing : PasswordHashing) (c : Credentials) (db : Db) (o : Option User) (w : World) {e : Text}
    {v : World}
    → tail_of hashing c o w ≡ (err (invalid_credentials e), v)
    → row_of c.username db ≡ o
    → IsRefused hashing c db
unfolding verify_password_hash
refused hashing c db none w h q = unknown_username q
refused hashing c db (some x) w h q =
    examined hashing c db x q (hashing.parse x.password_hash) refl (λ m. passed hashing c x w m h)

-- Credentials are answered to be invalid for one of three reasons: no user of the tables has the
-- name; or the hash stored for the user of that name cannot be parsed; or it was parsed and
-- compared with the password, which did not match.
pub validate_credentials-IsRefused :
    (hashing : PasswordHashing) (c : Credentials) (w : World) {e : Text} {v : World}
    → validate_credentials hashing c w ≡ (err (invalid_credentials e), v)
    → IsRefused hashing c w.db
unfolding validate_credentials get_stored_credentials
validate_credentials-IsRefused hashing c w {e} {v} h =
    elim (>>=-eq-err (map_err unexpected_error (get_stored_credentials c.username)) _ w h) [
      | inl k ↦ let (x, m, n) = map_err-eq-err unexpected_error _ w k in cc
      | inr (row, w1, k, h1) ↦
          let (gs, r, s) =
            select-eq-ok (λ db. stored (row_of c.username db)) w
              (map_err-eq-ok _ _ w (map_err-eq-ok _ _ w k)) in
          elim (>>=-eq-err (map_err (λ x. unexpected_error spawn_failure) attempt) _ w1 h1) [
            | inl m ↦
                let (x, n, p) = map_err-eq-err (λ x. unexpected_error spawn_failure) _ w1 m in cc
            | inr (t, w2, m, h2) ↦
                refused hashing c w.db (row_of c.username w.db) w2
                  (subst (λ y. after_row hashing c y w2 ≡ (err (invalid_credentials e), v)) r h2)
                  refl
          ]
    ]

-- Where no operation fails, the tail refuses for each of the reasons.
answered :
    (hashing : PasswordHashing) (c : Credentials) (o : Option User) (r : Result Text (Unit {0}))
    (w : World)
    → verify_password_hash hashing (expected (stored o)) c.password ≡ r
    → ¬ ((u : User) × (o ≡ some u) × (r ≡ ok tt))
    → (e : Text) × (tail_of hashing c o w ≡ (err (invalid_credentials e), w))
unfolding ◌>>=◌ map_err lift pure fail
answered hashing c none (ok t) w p n = (lit "Unknown username", rw p refl)
answered hashing c (some u) (ok t) w p n = absurd (n (u, refl, refl))
answered hashing c none (err e) w p n = (lit "Invalid password", rw p refl)
answered hashing c (some u) (err e) w p n = (lit "Invalid password", rw p refl)

unverified :
    (hashing : PasswordHashing) (c : Credentials) (db : Db)
    → IsRefused hashing c db
    → ¬ (
        (u : User) × (row_of c.username db ≡ some u)
        × (verify_password_hash hashing (expected (stored (row_of c.username db))) c.password
            ≡ ok tt))
unfolding verify_password_hash
unverified hashing c db (unknown_username q) (u, p, m) = cc
unverified hashing c db (unreadable_hash x e q h) (u, p, m) =
    let k : verify_parsed hashing (hashing.parse x.password_hash) c.password ≡ ok tt = rw q at m in
    let l : verify_parsed hashing (err e) c.password ≡ ok tt = rw h at k in cc
unverified hashing c db (wrong_password x hash e q h n) (u, p, m) =
    let k : verify_parsed hashing (hashing.parse x.password_hash) c.password ≡ ok tt = rw q at m in
    let l : verify_parsed hashing (ok hash) c.password ≡ ok tt = rw h at k in
    let j : replace (λ (t : Text). lit "Invalid password") (err e) ≡ ok tt = rw n at l in cc

without_faults :
    (hashing : PasswordHashing) (c : Credentials) (w : World)
    → w.faults ≡ []
    → validate_credentials hashing c w ≡ tail_of hashing c (row_of c.username w.db) w
unfolding validate_credentials get_stored_credentials select gets attempt ◌>>=◌ map_err
without_faults hashing c w clean = rw clean refl

-- Where no operation fails, credentials are answered to be invalid, and the world stays as it was,
-- where no user of the tables has the name, and where the hash of the user of that name cannot be
-- parsed or the password does not match it.
pub validate_credentials-invalid :
    (hashing : PasswordHashing) (c : Credentials) (w : World)
    → w.faults ≡ []
    → IsRefused hashing c w.db
    → (e : Text) × (validate_credentials hashing c w ≡ (err (invalid_credentials e), w))
validate_credentials-invalid hashing c w clean why =
    let (e, h) =
      answered hashing c (row_of c.username w.db) _ w refl
        (λ (u, p, m). unverified hashing c w.db why (u, p, m)) in
    (e, without_faults hashing c w clean ∙ h)

judged :
    (hashing : PasswordHashing) (c : Credentials) (row : Option (Text × Text)) (w : World)
    {e : Text} {v : World}
    → after_row hashing c row w ≡ (err (unexpected_error e), v)
    → ⊥
unfolding lift pure fail
judged hashing c row w h =
    elim (>>=-eq-err (map_err (λ x. invalid_credentials (lit "Invalid password")) (lift _)) _ w h) [
      | inl k ↦
          let (x, m, n) =
            map_err-eq-err (λ x. invalid_credentials (lit "Invalid password")) (lift _) w k in
          cc
      | inr (t, u, k, m) ↦ known row u m
    ]
  where
    known :
        (row : Option (Text × Text)) (u : World) {e : Text} {v : World}
        → or_unknown row u ≡ (err (unexpected_error e), v)
        → ⊥
    known none u m = cc
    known (some (i, p)) u m = cc

-- An answer that something unexpected happened comes from a failure of the environment alone: the
-- world has a fault for the check to meet.
pub validate_credentials-fault :
    (hashing : PasswordHashing) (c : Credentials) (w : World) {e : Text} {v : World}
    → validate_credentials hashing c w ≡ (err (unexpected_error e), v)
    → In true w.faults
unfolding validate_credentials get_stored_credentials attempt
validate_credentials-fault hashing c w {e} {v} h =
    elim (>>=-eq-err (map_err unexpected_error (get_stored_credentials c.username)) _ w h) [
      | inl k ↦
          let (x, m, n) = map_err-eq-err unexpected_error _ w k in
          let (y, m2, n2) = map_err-eq-err _ (select _) w m in select-fault _ w m2
      | inr (row, w1, k, h1) ↦
          select_later _ w (map_err-eq-ok _ _ w (map_err-eq-ok _ _ w k))
            (elim (>>=-eq-err (map_err (λ x. unexpected_error spawn_failure) attempt) _ w1 h1) [
              | inl m ↦
                  let (x, n, p) = map_err-eq-err (λ x. unexpected_error spawn_failure) _ w1 m in
                  attempt_with-fault w1.faults w1 n
              | inr (t, w2, m, h2) ↦ absurd (judged hashing c row w2 h2)
            ])
    ]
