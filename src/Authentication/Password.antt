-- ===== src/Authentication/Password.antt =====
-- src/authentication/password.rs. Argon2 is third-party; `PasswordHashing` is what is used of it. A
-- secret is its text. The blocking task that hashes is one more operation that may fail.
pub mod Login
pub mod Errors
pub mod Seed
use weiterleitung.Prelude.{
  ℕ, ◌+◌, Bool, ◌||◌, if◌then◌else◌, any, find, List, [], ◌∷◌, ◌++◌, Option, none, some, Result, ok,
  err,
}
use weiterleitung.Text.{Text, lit, eq_text}
use weiterleitung.Database.{Db, User}
use weiterleitung.Database.Schema.{unique_violation}
use weiterleitung.Database.Exec.{
  replace, Exec, pure, fail, lift, ◌>>=◌, ◌>>◌, map_err, attempt, select, execute, now, new_uuid,
}

pub data AuthError : Type 0 where
  invalid_credentials : Text → AuthError
  unexpected_error : Text → AuthError

pub record Credentials : Type 0 where
  pub username : Text
  pub password : Text

-- `PasswordHash::new`, with a parsed hash as its text again, `Argon2::verify_password`, the check of
-- `Params::new`, and `Argon2::hash_password` with the salt of a draw.
pub record PasswordHashing : Type 0 where
  pub parse : Text → Result Text Text
  pub verify_password : Text → Text → Result Text (Unit {0})
  pub params : Result Text (Unit {0})
  pub hash_password : Text → ℕ → Result Text Text

abbrev pub verify_parsed : PasswordHashing → Result Text Text → Text → Result Text (Unit {0})
verify_parsed hashing (err e) candidate = err (lit "Failed to parse the stored password hash")
verify_parsed hashing (ok parsed) candidate =
    replace (λ e. lit "Invalid password") (hashing.verify_password parsed candidate)

unfoldable pub verify_password_hash : PasswordHashing → Text → Text → Result Text (Unit {0})
verify_password_hash hashing expected candidate =
    verify_parsed hashing (hashing.parse expected) candidate

abbrev pub hash_with_params : PasswordHashing → Result Text (Unit {0}) → Text → ℕ → Result Text Text
hash_with_params hashing (err e) password salt = err (lit "Failed to build the Argon2 parameters")
hash_with_params hashing (ok t) password salt = hashing.hash_password password salt

unfoldable pub hash_with : PasswordHashing → Text → ℕ → Result Text Text
hash_with hashing password salt = hash_with_params hashing hashing.params password salt

abbrev pub dummy_hash : Text
dummy_hash =
    lit
      "$argon2id$v=19$m=15000,t=2,p=1$gZiV/M1gPc22ElAH/Jh1Hw$CWOrkoo7oJBQ/iyh7uJ0LO2aLEfrHwTWllSAxT0zRno"

abbrev pub has_username : Text → User → Bool
has_username username u = eq_text u.username username

abbrev pub stored : Option User → Option (Text × Text)
stored none = none
stored (some u) = some (u.user_id, u.password_hash)

-- The identifier is the text of the table: the panic of `Uuid::parse_str(..).expect` on another form
-- than `seed_admin_user` writes has no counterpart.
unfoldable pub get_stored_credentials : Text → Exec Text (Option (Text × Text))
get_stored_credentials username =
    map_err (λ e. lit "Failed to query the stored credentials")
      (select (λ db. stored (find (has_username username) db.users)))

abbrev pub expected : Option (Text × Text) → Text
expected none = dummy_hash
expected (some (user_id, password_hash)) = password_hash

abbrev pub or_unknown : Option (Text × Text) → Exec AuthError Text
or_unknown none = fail (invalid_credentials (lit "Unknown username"))
or_unknown (some (user_id, password_hash)) = pure user_id

abbrev pub spawn_failure : Text
spawn_failure = lit "Failed to spawn a blocking task"

-- `ON CONFLICT (username) DO UPDATE SET password_hash = excluded.password_hash`.
unfoldable pub set_password : Text → Text → List User → List User
set_password username password_hash [] = []
set_password username password_hash (u ∷ rest) =
    (if has_username username u then record u { password_hash = password_hash } else u)
    ∷ set_password username password_hash rest

unfoldable pub upsert_row : User → Db → Result Text Db
upsert_row u db =
    if any (has_username u.username) db.users
    then ok (record db { users = set_password u.username u.password_hash db.users })
    else if any (λ k. eq_text k.user_id u.user_id) db.users
    then err unique_violation
    else ok (record db { users = db.users ++ (u ∷ []) })

unfoldable pub draw_salt : {E : Type 0} → Exec E ℕ
draw_salt w = (ok w.drawn, record w { drawn = w.drawn + 1 })

module _ (hashing : PasswordHashing) where
  unfoldable pub validate_credentials : Credentials → Exec AuthError Text
  validate_credentials c = do
    row ← map_err unexpected_error (get_stored_credentials c.username)
    map_err (λ e. unexpected_error spawn_failure) attempt
    map_err (λ e. invalid_credentials (lit "Invalid password"))
        (lift (verify_password_hash hashing (expected row) c.password))
    or_unknown row

  unfoldable pub compute_password_hash : Text → Exec Text Text
  compute_password_hash password = do salt ← draw_salt; lift (hash_with hashing password salt)

  unfoldable pub seed_admin_user : Text → Text → Exec Text (Unit {0})
  seed_admin_user username password = do
    map_err (λ e. spawn_failure) attempt
    password_hash ← compute_password_hash password
    user_id ← new_uuid
    created_at ← now
    map_err (λ e. lit "Failed to seed the admin user")
        (execute (
          upsert_row (record {
            user_id = user_id;
            username = username;
            password_hash = password_hash;
            created_at = created_at;
          })))
