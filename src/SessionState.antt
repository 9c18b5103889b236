-- ===== src/SessionState.antt =====
-- src/session_state.rs: what the web interface keeps for a visitor. The session itself belongs to
-- tower-sessions: it is the interface `SessionStore`, and `IsSessionStore` is what its documentation
-- promises.
pub mod Flash
use weiterleitung.Prelude.{
  ◌≡◌, Bool, true, false, if◌then◌else◌, List, [], ◌∷◌, ◌++◌, Option, none, some, Result, ok, err,
}
use weiterleitung.Text.{Text, lit, eq_text}

pub data FlashLevel : Type 0 where
  info error : FlashLevel

pub record FlashMessage : Type 0 where
  pub level : FlashLevel
  pub content : Text

abbrev pub is_error_level : FlashLevel → Bool
is_error_level error = true
is_error_level info = false

unfoldable pub is_error : FlashMessage → Bool
is_error m = is_error_level m.level

-- What the program stores under a key, before serde writes it.
pub data Value : Type 0 where
  uuid : Text → Value
  messages : List FlashMessage → Value

pub record SessionStore (S : Type 0) : Type 0 where
  pub insert : Text → Value → S → Result Text (Unit {0}) × S
  pub get : Text → S → Result Text (Option Value) × S
  pub remove : Text → S → Result Text (Option Value) × S

-- `value s` is what the session holds. An operation that fails changes nothing.
pub record IsSessionStore {S : Type 0} (store : SessionStore S) (value : S → Text → Option Value)
    : Type 0 where
  pub insert_ok :
      (k : Text) (x : Value) (s : S) (j : Text)
      → (store.insert k x s).0 ≡ ok tt
      → value (store.insert k x s).1 j ≡ (if eq_text k j then some x else value s j)
  pub insert_err :
      (k : Text) (x : Value) (s : S) (j e : Text)
      → (store.insert k x s).0 ≡ err e
      → value (store.insert k x s).1 j ≡ value s j
  pub get_ok : (k : Text) (s : S) (o : Option Value) → (store.get k s).0 ≡ ok o → o ≡ value s k
  pub get_keeps : (k : Text) (s : S) (j : Text) → value (store.get k s).1 j ≡ value s j
  pub remove_value :
      (k : Text) (s : S) (o : Option Value) → (store.remove k s).0 ≡ ok o → o ≡ value s k
  pub remove_ok :
      (k : Text) (s : S) (j : Text) (o : Option Value)
      → (store.remove k s).0 ≡ ok o
      → value (store.remove k s).1 j ≡ (if eq_text k j then none else value s j)
  pub remove_err :
      (k : Text) (s : S) (j e : Text)
      → (store.remove k s).0 ≡ err e
      → value (store.remove k s).1 j ≡ value s j

abbrev pub user_id_key : Text
user_id_key = lit "user_id"

abbrev pub flash_key : Text
flash_key = lit "flash_messages"

abbrev pub mismatch : Text
mismatch = lit "invalid type"

-- The typed `get::<Uuid>`.
abbrev pub as_uuid : Result Text (Option Value) → Result Text (Option Text)
as_uuid (err e) = err e
as_uuid (ok none) = ok none
as_uuid (ok (some (uuid id))) = ok (some id)
as_uuid (ok (some (messages ms))) = err mismatch

abbrev pub done : {A : Type 0} → Result Text A → Result Text (Unit {0})
done (ok a) = ok tt
done (err e) = err e

-- `….await.ok().flatten().unwrap_or_default()`.
abbrev pub messages_or_default : Result Text (Option Value) → List FlashMessage
messages_or_default (ok (some (messages ms))) = ms
messages_or_default _ = []

module _ {S : Type 0} (store : SessionStore S) where
  unfoldable pub insert_user_id : Text → S → Result Text (Unit {0}) × S
  insert_user_id id s = store.insert user_id_key (uuid id) s

  unfoldable pub get_user_id : S → Result Text (Option Text) × S
  get_user_id s = (as_uuid (store.get user_id_key s).0, (store.get user_id_key s).1)

  unfoldable pub log_out : S → Result Text (Unit {0}) × S
  log_out s = (done (as_uuid (store.remove user_id_key s).0), (store.remove user_id_key s).1)

  -- A message that cannot be stored is lost.
  unfoldable pub push_flash : FlashLevel → Text → S → S
  push_flash level content s =
      let found = store.get flash_key s in
      (store.insert flash_key
        (messages
          (messages_or_default found.0 ++ (record { level = level; content = content } ∷ [])))
        found.1).1

  unfoldable pub flash_error : Text → S → S
  flash_error = push_flash error

  unfoldable pub flash_info : Text → S → S
  flash_info = push_flash info

  unfoldable pub get_flash_messages : S → List FlashMessage × S
  get_flash_messages s =
      (messages_or_default (store.remove flash_key s).0, (store.remove flash_key s).1)
