-- ===== src/Authentication/Password/Login.antt =====
-- Who the check of credentials lets in.
use weiterleitung.Prelude.{
  ◌≡◌, refl, ap, subst, find, find_sound, In, Option, none, some, Result, ok, arith,
}
use weiterleitung.Text.{Text, eq_text_iff}
use weiterleitung.Database.{Db, World, User}
use weiterleitung.Database.Exec.{pure, fail, lift, map_err, attempt}
use weiterleitung.Database.Frame.{>>=-eq-ok, map_err-eq-ok, select-eq-ok}
use weiterleitung.Authentication.Password.{
  verify_password_hash, unexpected_error, Credentials, PasswordHashing, has_username, stored,
  expected, or_unknown, get_stored_credentials, validate_credentials,
}

-- A user of the tables, of that name, whose stored hash verifies against the password.
pub record IsVerified (hashing : PasswordHashing) (c : Credentials) (db : Db) (user_id : Text)
    : Type 0 where
  pub user : User
  pub present : In user db.users
  pub named : user.username ≡ c.username
  pub matches : verify_password_hash hashing user.password_hash c.password ≡ ok tt
  pub identity : user.user_id ≡ user_id

-- The row that the query finds.
abbrev pub row_of : Text → Db → Option User
row_of username db = find (has_username username) db.users

lift-eq-ok :
    {E A : Type 0} (r : Result E A) (w : World) {a : A} {v : World}
    → lift r w ≡ (ok a, v)
    → r ≡ ok a
unfolding lift
lift-eq-ok r w h = ap (λ p. p.0) h

verified :
    (hashing : PasswordHashing) (c : Credentials) (db : Db) (o : Option User) (w : World)
    {id : Text} {v : World}
    → row_of c.username db ≡ o
    → verify_password_hash hashing (expected (stored o)) c.password ≡ ok tt
    → or_unknown (stored o) w ≡ (ok id, v)
    → IsVerified hashing c db id
unfolding pure fail
verified hashing c db none w e m h = cc
verified hashing c db (some u) w e m h =
    let (named, present) = find_sound (has_username c.username) db.users e in
    record {
      user = u;
      present = present;
      named = (eq_text_iff u.username c.username).0 named;
      matches = m;
      identity = ground arith;
    }

-- Whoever is let in is a user of the tables, of the given name, whose stored hash verifies against
-- the given password.
pub validate_credentials-IsVerified :
    (hashing : PasswordHashing) (c : Credentials) (w : World) {id : Text} {v : World}
    → validate_credentials hashing c w ≡ (ok id, v)
    → IsVerified hashing c w.db id
unfolding validate_credentials get_stored_credentials
validate_credentials-IsVerified hashing c w {id} {v} h =
    let (row, w1, q, h1) = >>=-eq-ok (map_err unexpected_error _) _ w h in
    let (gs, r, s) =
      select-eq-ok (λ db. stored (row_of c.username db)) w
        (map_err-eq-ok _ _ w (map_err-eq-ok _ _ w q)) in
    let (t, w2, q2, h2) = >>=-eq-ok (map_err _ attempt) _ w1 h1 in
    let (t3, w3, q3, h3) = >>=-eq-ok (map_err _ (lift _)) _ w2 h2 in
    verified hashing c w.db (row_of c.username w.db) w3 refl
      (subst (λ x. verify_password_hash hashing (expected x) c.password ≡ ok tt) r
        (lift-eq-ok _ w2 (map_err-eq-ok _ _ w2 q3)))
      (subst (λ x. or_unknown x w3 ≡ (ok id, v)) r h3)
