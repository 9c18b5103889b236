-- ===== src/Startup/Application.antt =====
-- `Application::build` of src/startup.rs: what is done before the web interface serves. The
-- migrations and the socket are third-party or I/O: a migration may fail as any operation of the
-- database, and `bind` is a parameter.
use weiterleitung.Prelude.{ℕ, ◌≡◌, refl, sym, ap, subst, [], Result, ok}
use weiterleitung.Text.{Text, lit, Unicode}
use weiterleitung.Configuration.{Settings}
use weiterleitung.Database.{World}
use weiterleitung.Database.Exec.{Exec, lift, ◌>>◌, attempt}
use weiterleitung.Database.Frame.{>>=-eq-ok}
use weiterleitung.Database.Run.{attempt_ok}
use weiterleitung.SessionState.{insert_user_id}
use weiterleitung.Authentication.Password.{
  verify_password_hash, hash_with, PasswordHashing, seed_admin_user, validate_credentials,
}
use weiterleitung.Authentication.Password.Seed.{HasHash, Verifies, seeded, let_in}
use weiterleitung.WebTemplates.{redirect}
use weiterleitung.Routes
use weiterleitung.Routes.{AppState, Visit, give, outcome, in_session, respond}
use weiterleitung.Routes.Login.{login}
use weiterleitung.Routes.Assets.{AssetFiles}
use weiterleitung.Startup.{post_login, build_router, serve}

-- The port that the listener got.
unfoldable pub build_application :
    PasswordHashing → (Text → ℕ → Result Text ℕ) → Settings → Exec Text ℕ
build_application hashing bind c = do
  attempt
  seed_admin_user hashing c.admin.username c.admin.password
  attempt
  lift (bind c.application.host c.application.port)

built :
    (hashing : PasswordHashing) (bind : Text → ℕ → Result Text ℕ) (c : Settings) (w : World)
    {port : ℕ} {v : World}
    → build_application hashing bind c w ≡ (ok port, v)
    → (salt : ℕ) × (h : Text) × (hash_with hashing c.admin.password salt ≡ ok h)
      × HasHash c.admin.username h v.db.users
unfolding build_application lift
built hashing bind c w {port} {v} b =
    let (gs, b1) = attempt_ok _ w b in
    let (t, u, s, b2) =
      >>=-eq-ok (seed_admin_user hashing c.admin.username c.admin.password) _ _ b1 in
    let (fs, b3) = attempt_ok _ u b2 in
    let (salt, h, m, has) = seeded hashing c.admin.username c.admin.password _ s in
    let q : record u { faults = fs } ≡ v = ap (λ p. p.1) b3 in
    (salt, h, m, subst (λ (x : World). HasHash c.admin.username h x.db.users) q has)

logged_in :
    ⦃u : Unicode⦄ {S : Type 0} (app : AppState S) (files : AssetFiles) (username password : Text)
    (id : Text) (session : S) (v : World)
    → validate_credentials app.hashing (record { username = username; password = password }) v
      ≡ (ok id, v)
    → (insert_user_id app.sessions id session).0 ≡ ok tt
    → serve app files
        (post_login (record { username = username; password = password }))
        (record { session = session; world = v })
      ≡ (
        redirect (lit "/admin/dashboard"),
        record { session = (insert_user_id app.sessions id session).1; world = v },
      )
unfolding serve build_router respond login outcome in_session Routes.◌>>=◌ give
logged_in app files username password id session v e i = rw e (rw i refl)

-- Once the application was built, whether the administrator was there before or not, logging in with
-- the username and the password of its settings leads to the dashboard, with a user in the session,
-- where no operation fails and the session can store it, and the world stays as it was.
pub serve-build_application :
    ⦃u : Unicode⦄ {S : Type 0} (app : AppState S) (files : AssetFiles)
    (bind : Text → ℕ → Result Text ℕ) (c : Settings) (w : World) {port : ℕ} {v : World}
    (session : S)
    → Verifies app.hashing
    → build_application app.hashing bind c w ≡ (ok port, v)
    → v.faults ≡ []
    → ((id : Text) → (insert_user_id app.sessions id session).0 ≡ ok tt)
    → (id : Text) × (serve app files
          (post_login (record { username = c.admin.username; password = c.admin.password }))
          (record { session = session; world = v })
        ≡ (
          redirect (lit "/admin/dashboard"),
          record { session = (insert_user_id app.sessions id session).1; world = v },
        ))
serve-build_application app files bind c w {port} {v} session law b clean works =
    let (salt, h, m, (x, r, e)) = built app.hashing bind c w b in
    let k =
      let_in app.hashing c.admin.username c.admin.password v x r
        (subst (λ y. verify_password_hash app.hashing y c.admin.password ≡ ok tt) (sym e)
          (law c.admin.password salt h m))
        clean in
    (
      x.user_id,
      logged_in app files c.admin.username c.admin.password x.user_id session v k (works x.user_id),
    )
