-- ===== src/Startup/Admission.antt =====
-- Whoever is logged in has logged in: over any sequence of requests, the user that a session holds
-- was verified by a login.
use weiterleitung.Prelude.{
  ◌≡◌, refl, sym, ◌∙◌, ap, subst, ◌⊎◌, inl, inr, Option, some, Result, ok, err, Result-cases, arith,
}
use weiterleitung.Text.{Text, Unicode}
use weiterleitung.Database.{Db, World}
use weiterleitung.SessionState.{IsSessionStore, Value, uuid, user_id_key, insert_user_id}
use weiterleitung.SessionState.Flash.{insert_user_id-value, insert_user_id-NoNewUser}
use weiterleitung.Authentication.Password.{
  AuthError, invalid_credentials, unexpected_error, Credentials, validate_credentials,
}
use weiterleitung.Authentication.Password.Login.{IsVerified, validate_credentials-IsVerified}
use weiterleitung.WebTemplates.{Response}
use weiterleitung.Routes.{
  AppState, Visit, give, outcome, in_session, ◌>>=◌, ◌>>◌, respond, say_error,
}
use weiterleitung.Routes.Visits.{Rests, Rests-give, Rests-bind}
use weiterleitung.Routes.Login.{LoginFormData, login, started, start_session}
use weiterleitung.Routes.Assets.{AssetFiles}
use weiterleitung.Startup.{
  Request, get_home, get_health_check, get_login, post_login, get_app_css, get_app_js, admin,
  build_router, serve,
}
use weiterleitung.Startup.Sessions.{
  NewcomerFree, order, say_error-Quiet, login_form-Quiet, guarded-Quiet,
}

abbrev pub credentials_of : LoginFormData → Credentials
credentials_of form = record { username = form.username; password = form.password }

-- A login with credentials that the tables of its moment verify.
pub data IsLogin {S : Type 0} (app : AppState S) (db : Db) : Request → Value → Type 0 where
  logged_in :
      (form : LoginFormData) (id : Text)
      → IsVerified app.hashing (credentials_of form) db id
      → IsLogin app db (post_login form) (uuid id)

-- The visits that one visitor's requests lead to; between them, other tasks may change the world.
pub data Reaches ⦃u : Unicode⦄ {S : Type 0} (app : AppState S) (files : AssetFiles) (v : Visit S)
    : Visit S → Type 0 where
  here : Reaches app files v v
  request :
      (a : Visit S) (r : Request)
      → Reaches app files v a
      → Reaches app files v (serve app files r a).1
  meanwhile :
      (a : Visit S) (w : World)
      → Reaches app files v a
      → Reaches app files v (record { session = a.session; world = w })

-- One of the requests of a path was a login that let the user `x` in, verified by the tables as
-- they were when that request was made.
unfoldable pub LetIn :
    ⦃u : Unicode⦄ {S : Type 0} (app : AppState S) (files : AssetFiles) {v w : Visit S}
    → Reaches app files v w
    → Value
    → Type 0
LetIn app files here x = ⊥
LetIn app files (request a r path) x = IsLogin app a.world.db r x ⊎ LetIn app files path x
LetIn app files (meanwhile a w path) x = LetIn app files path x

module _ ⦃u : Unicode⦄ {S : Type 0} (app : AppState S) (files : AssetFiles)
    (value : S → Text → Option Value) (laws : IsSessionStore app.sessions value) where
  told :
      (content : Text) (r : Response)
      → Rests (NewcomerFree app files value laws) (say_error app content >> give r)
  told content r =
      Rests-bind (order app files value laws) _ _ (say_error-Quiet app files value laws content)
        (λ _. Rests-give (order app files value laws) r)

  started-NoNewUser :
      (r : Result Text (Unit {0})) → Rests (NewcomerFree app files value laws) (started app r)
  started-NoNewUser (ok t) = Rests-give (order app files value laws) _
  started-NoNewUser (err e) = told _ _

  start_session-user :
      (form : LoginFormData) (db : Db) (r : Result AuthError Text) (v : Visit S) (x : Value)
      → ((id : Text) → r ≡ ok id → IsVerified app.hashing (credentials_of form) db id)
      → value (start_session app r v).1.session user_id_key ≡ some x
      → (value v.session user_id_key ≡ some x) ⊎ IsLogin app db (post_login form) x
  unfolding in_session ◌>>=◌
  start_session-user form db (err (invalid_credentials e)) v x c h = inl ((told _ _).at v x h)
  start_session-user form db (err (unexpected_error e)) v x c h = inl ((told _ _).at v x h)
  start_session-user form db (ok id) v x c h =
      let stored = insert_user_id app.sessions id v.session in
      let k =
        (started-NoNewUser stored.0).at (record { session = stored.1; world = v.world }) x h in
      elim (Result-cases stored.0) [
        | inl (t, e) ↦
            let q : some (uuid id) ≡ some x =
              sym (insert_user_id-value app.sessions value laws id v.session e) ∙ k in
            inr (
              subst (IsLogin app db (post_login form)) (ground arith)
                (logged_in form id (c id refl)))
        | inr (e, m) ↦ inl (insert_user_id-NoNewUser app.sessions value laws id e v.session m x k)
      ]

  pub serve-user :
      (r : Request) (v : Visit S) (x : Value)
      → value (serve app files r v).1.session user_id_key ≡ some x
      → (value v.session user_id_key ≡ some x) ⊎ IsLogin app v.world.db r x
  unfolding serve respond build_router login outcome ◌>>=◌ give
  serve-user get_home v x h = inl h
  serve-user get_health_check v x h = inl h
  serve-user get_login v x h = inl ((login_form-Quiet app files value laws).at v x h)
  serve-user (post_login form) v x h =
      start_session-user form v.world.db _ _ x
        (λ id e.
          validate_credentials-IsVerified app.hashing (credentials_of form) v.world
            (ap (λ r. (r, (validate_credentials app.hashing (credentials_of form) v.world).1)) e))
        h
  serve-user (get_app_css tag) v x h = inl h
  serve-user (get_app_js tag) v x h = inl h
  serve-user (admin a) v x h = inl ((guarded-Quiet app files value laws a).at v x h)

  -- A user that the session holds after any requests, with any changes of the world between them,
  -- was in it at the start, or one of those requests was a login, with the username of a user in
  -- the tables of its moment, with the same identifier, and with a password that the hash stored
  -- for that user verifies.
  pub Reaches-LetIn :
      {v w : Visit S} (path : Reaches app files v w) (x : Value)
      → value w.session user_id_key ≡ some x
      → (value v.session user_id_key ≡ some x) ⊎ LetIn app files path x
  unfolding LetIn
  Reaches-LetIn here x h = inl h
  Reaches-LetIn (request a r path) x h = elim (serve-user r a x h) [
    | inl k ↦ elim (Reaches-LetIn path x k) [ inl m ↦ inl m | inr m ↦ inr (inr m) ]
    | inr k ↦ inr (inl k)
  ]
  Reaches-LetIn (meanwhile a w path) x h = Reaches-LetIn path x h
