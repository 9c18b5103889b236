-- ===== src/SessionState/Flash.antt =====
-- What the typed session keeps: no operation on the messages touches the user, and a message is
-- shown once.
use weiterleitung.Prelude.{
  ◌≡◌, refl, sym, ◌∙◌, ap, inl, inr, true, false, if◌then◌else◌, List, [], ◌∷◌, ◌++◌, Option, none,
  some, Result, ok, err, Result-cases,
}
use weiterleitung.Text.{Text, eq_text}
use weiterleitung.SessionState.{
  SessionStore, IsSessionStore, Value, uuid, messages, user_id_key, flash_key, FlashLevel,
  FlashMessage, messages_or_default, get_user_id, insert_user_id, log_out, push_flash, flash_error,
  flash_info, get_flash_messages,
}

other_key : eq_text flash_key user_id_key ≡ false
unfolding eq_text
other_key = refl

same_key : eq_text flash_key flash_key ≡ true
unfolding eq_text
same_key = refl

user_key : eq_text user_id_key user_id_key ≡ true
unfolding eq_text
user_key = refl

-- A user of the session `t` is one of the session `s`.
abbrev pub NoNewUser : {S : Type 0} → (S → Text → Option Value) → S → S → Type 0
NoNewUser value s t = (x : Value) → value t user_id_key ≡ some x → value s user_id_key ≡ some x

module _ {S : Type 0} (store : SessionStore S) (value : S → Text → Option Value)
    (laws : IsSessionStore store value) where
  insert_flash-user :
      (x : Value) (s : S) → value (store.insert flash_key x s).1 user_id_key ≡ value s user_id_key
  insert_flash-user x s = elim (Result-cases (store.insert flash_key x s).0) [
    | inl (tt, e) ↦
        laws.insert_ok flash_key x s user_id_key e
        ∙ ap (λ b. if b then some x else value s user_id_key) other_key
    | inr (e, h) ↦ laws.insert_err flash_key x s user_id_key e h
  ]

  push_flash-user :
      (level : FlashLevel) (content : Text) (s : S)
      → value (push_flash store level content s) user_id_key ≡ value s user_id_key
  unfolding push_flash
  push_flash-user level content s =
      insert_flash-user _ (store.get flash_key s).1 ∙ laws.get_keeps flash_key s user_id_key

  pub flash_error-NoNewUser :
      (content : Text) (s : S) → NoNewUser value s (flash_error store content s)
  unfolding flash_error
  flash_error-NoNewUser content s x h = sym (push_flash-user _ content s) ∙ h

  pub flash_info-NoNewUser :
      (content : Text) (s : S) → NoNewUser value s (flash_info store content s)
  unfolding flash_info
  flash_info-NoNewUser content s x h = sym (push_flash-user _ content s) ∙ h

  remove_flash-user : (s : S) → value (store.remove flash_key s).1 user_id_key ≡ value s user_id_key
  remove_flash-user s = elim (Result-cases (store.remove flash_key s).0) [
    | inl (o, e) ↦
        laws.remove_ok flash_key s user_id_key o e
        ∙ ap (λ b. if b then none else value s user_id_key) other_key
    | inr (e, h) ↦ laws.remove_err flash_key s user_id_key e h
  ]

  pub get_flash_messages-NoNewUser : (s : S) → NoNewUser value s (get_flash_messages store s).1
  unfolding get_flash_messages
  get_flash_messages-NoNewUser s x h = sym (remove_flash-user s) ∙ h

  pub get_user_id-NoNewUser : (s : S) → NoNewUser value s (get_user_id store s).1
  unfolding get_user_id
  get_user_id-NoNewUser s x h = sym (laws.get_keeps user_id_key s user_id_key) ∙ h

  pub log_out-NoNewUser : (s : S) → NoNewUser value s (log_out store s).1
  unfolding log_out
  log_out-NoNewUser s x h = elim (Result-cases (store.remove user_id_key s).0) [
    | inl (o, e) ↦
        let k = sym (laws.remove_ok user_id_key s user_id_key o e) ∙ h in
        let q : none ≡ some x = rw user_key at k in cc
    | inr (e, q) ↦ sym (laws.remove_err user_id_key s user_id_key e q) ∙ h
  ]

  pub insert_user_id-value :
      (id : Text) (s : S)
      → (insert_user_id store id s).0 ≡ ok tt
      → value (insert_user_id store id s).1 user_id_key ≡ some (uuid id)
  unfolding insert_user_id
  insert_user_id-value id s h =
      laws.insert_ok user_id_key (uuid id) s user_id_key h
      ∙ ap (λ b. if b then some (uuid id) else value s user_id_key) user_key

  pub insert_user_id-NoNewUser :
      (id e : Text) (s : S)
      → (insert_user_id store id s).0 ≡ err e
      → NoNewUser value s (insert_user_id store id s).1
  unfolding insert_user_id
  insert_user_id-NoNewUser id e s h x k =
      sym (laws.insert_err user_id_key (uuid id) s user_id_key e h) ∙ k

  -- What the session holds for the visitor to read.
  abbrev pub waiting : Option Value → List FlashMessage
  waiting o = messages_or_default (ok o)

  -- Where the session works, a message is shown after those that were waiting, and nothing is left
  -- to show.
  pub get_flash_messages-push_flash :
      (level : FlashLevel) (content : Text) (s : S) {found : Option Value} {removed : Option Value}
      → (store.get flash_key s).0 ≡ ok found
      → ((x : Value) (t : S) → (store.insert flash_key x t).0 ≡ ok tt)
      → (store.remove flash_key (push_flash store level content s)).0 ≡ ok removed
      → ((get_flash_messages store (push_flash store level content s)).0
          ≡ waiting (value s flash_key) ++ (record { level = level; content = content } ∷ []))
        × (waiting (value (get_flash_messages store (push_flash store level content s)).1 flash_key)
            ≡ [])
  unfolding get_flash_messages push_flash
  get_flash_messages-push_flash level content s {found} {removed} f i r =
      let t = push_flash store level content s in
      let new : List FlashMessage =
        messages_or_default (store.get flash_key s).0
        ++ (record { level = level; content = content } ∷ []) in
      let held : value t flash_key ≡ some (messages new) =
        laws.insert_ok flash_key (messages new) (store.get flash_key s).1 flash_key (i _ _)
        ∙ ap (λ b. if b then some (messages new) else value (store.get flash_key s).1 flash_key)
            same_key in
      (
        ap messages_or_default (r ∙ ap ok (laws.remove_value flash_key t removed r ∙ held))
            ∙ ap
                (λ (o : Result Text (Option Value)).
                  messages_or_default o ++ (record { level = level; content = content } ∷ []))
                (f ∙ ap ok (laws.get_ok flash_key s found f)),
        ap waiting (
            laws.remove_ok flash_key t flash_key removed r
            ∙ ap (λ b. if b then none else value t flash_key) same_key),
      )
