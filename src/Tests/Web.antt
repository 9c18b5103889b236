-- ===== src/Tests/Web.antt =====
-- The web interface.
use weiterleitung.Prelude.{
  ℕ, ◌≡◌, ◌≢◌, refl, List, [], ◌∷◌, ◌++◌, true, Option, none, some, Result, ok, err, In, head, ◌↔◌,
  ◌⊎◌,
}
use weiterleitung.Text.{Text, lit}
use weiterleitung.Configuration.{
  Settings, Environment, local, name_of, environment_of, direct, RelaySettings,
}
use weiterleitung.Database.{World}
use weiterleitung.SessionState.{
  uuid, user_id_key, flash_key, info, push_flash, get_flash_messages, flash_error, insert_user_id,
  get_user_id,
}
use weiterleitung.SessionState.Flash.{get_flash_messages-push_flash, waiting}
use weiterleitung.Authentication.Password.{
  verify_password_hash, invalid_credentials, unexpected_error, validate_credentials, Credentials,
}
use weiterleitung.Authentication.Password.Login.{row_of}
use weiterleitung.Authentication.Password.Errors.{
  IsRefused, unknown_username, validate_credentials-IsRefused, validate_credentials-invalid,
  validate_credentials-fault,
}
use weiterleitung.WebTemplates.{redirect, asset}
use weiterleitung.Routes.{Visit}
use weiterleitung.Routes.Assets.{etag, cache, serve_asset}
use weiterleitung.Routes.Assets.Fresh.{serve_asset-fresh}
use weiterleitung.Routes.Admin.{CreateAliasForm}
use weiterleitung.Startup.{
  Request, post_login, admin, post_delete_alias, get_dashboard, post_aliases, serve,
}
use weiterleitung.Startup.Guarded.{serve-turned_away}
use weiterleitung.Startup.Admission.{Reaches, here, request, LetIn, Reaches-LetIn}
use weiterleitung.Startup.Application.{build_application, serve-build_application}
use weiterleitung.Tests.Fixture.{ascii, world, router}
use weiterleitung.Tests.Visitor.{
  Held, sessions, sessions-IsSessionStore, plain, plain-Verifies, app, files, nobody, installed,
  right, wrong, visit,
}

abbrev form : weiterleitung.Routes.Login.LoginFormData
form = record { username = lit "admin"; password = lit "secret" }

wrong_refused :
    validate_credentials plain wrong installed
    ≡ (err (invalid_credentials (lit "Invalid password")), installed)
unfolding validate_credentials weiterleitung.Database.Exec.◌>>=◌ weiterleitung.Database.Exec.map_err
    weiterleitung.Authentication.Password.get_stored_credentials weiterleitung.Database.Exec.select
    weiterleitung.Database.Exec.lift weiterleitung.Text.eq_text weiterleitung.Prelude.find
    verify_password_hash
wrong_refused = refl

validate_credentials-IsRefused_example : IsRefused plain wrong installed.db
validate_credentials-IsRefused_example =
    validate_credentials-IsRefused plain wrong installed wrong_refused

abbrev stranger : Credentials
stranger = record { username = lit "eve"; password = lit "secret" }

nobody_named : row_of (lit "eve") installed.db ≡ none
unfolding weiterleitung.Prelude.find weiterleitung.Text.eq_text
nobody_named = refl

validate_credentials-invalid_example :
    (e : Text) × (validate_credentials plain stranger installed
      ≡ (err (invalid_credentials e), installed))
validate_credentials-invalid_example =
    validate_credentials-invalid plain stranger installed refl (unknown_username nobody_named)

abbrev failing : World
failing = record installed { faults = true ∷ [] }

right_fails :
    validate_credentials plain right failing
    ≡ (err (unexpected_error (lit "Failed to query the stored credentials")), installed)
unfolding validate_credentials weiterleitung.Database.Exec.◌>>=◌ weiterleitung.Database.Exec.map_err
    weiterleitung.Authentication.Password.get_stored_credentials weiterleitung.Database.Exec.select
right_fails = refl

validate_credentials-fault_example : In true (true ∷ [])
validate_credentials-fault_example = validate_credentials-fault plain right failing right_fails

-- An alias is created by the administrator, and by nobody else.
abbrev pub alias_form : CreateAliasForm
alias_form = record { local_part = lit " New "; mailbox_id = lit "m1"; note = lit "" }

abbrev pub inside : Held
inside = (insert_user_id sessions (lit "u1") nobody).1

created :
    (serve app files
      (admin (post_aliases alias_form))
      (record { session = inside; world = installed })).0
    ≡ redirect (lit "/admin/dashboard")
unfolding serve weiterleitung.Routes.respond weiterleitung.Startup.build_router
    weiterleitung.Startup.guarded weiterleitung.Routes.◌>>=◌ weiterleitung.Routes.in_session
    weiterleitung.Authentication.Middleware.authenticated_user get_user_id insert_user_id
    weiterleitung.Text.eq_text weiterleitung.Routes.give weiterleitung.Startup.admin_route
    weiterleitung.Routes.Admin.create_alias weiterleitung.Routes.call
    weiterleitung.Routes.Admin.chosen_local_part weiterleitung.Text.Trim.trim
    weiterleitung.Database.Exec.pure weiterleitung.Domain.EmailAddress.parse
    weiterleitung.Text.Split.rsplit_once weiterleitung.Domain.EmailAddress.bare
    weiterleitung.Configuration.default_domain weiterleitung.Domain.EmailAddress.valid_local
    weiterleitung.Domain.EmailAddress.valid_domain weiterleitung.Text.to_ascii_lowercase
    weiterleitung.Alias.find_alias_by_address weiterleitung.Database.Exec.select
    weiterleitung.Alias.alias_at weiterleitung.Domain.EmailAddress.normalised
    weiterleitung.Routes.outcome weiterleitung.Alias.insert_alias
    weiterleitung.Database.Exec.new_uuid weiterleitung.Database.Exec.now
    weiterleitung.Database.Exec.map_err weiterleitung.Database.Exec.execute
    weiterleitung.Alias.insert_row weiterleitung.Routes.say_info
created = refl

nobody_there : (x : Text) → (get_user_id sessions nobody).0 ≢ ok (some x)
unfolding get_user_id
nobody_there x h = cc

serve-turned_away_example : serve app files (admin (post_delete_alias (lit "a1"))) visit ≡ (
  redirect (lit "/login"),
  record {
    session =
        flash_error sessions
          (lit "You must be logged in to access that page")
          (get_user_id sessions nobody).1;
    world = installed;
  },
)
serve-turned_away_example =
    serve-turned_away app files (post_delete_alias (lit "a1")) visit nobody_there

abbrev after_login : Visit Held
after_login = (serve app files (post_login form) visit).1

logged_in : after_login.session user_id_key ≡ some (uuid (lit "u1"))
unfolding serve weiterleitung.Routes.respond weiterleitung.Startup.build_router
    weiterleitung.Routes.Login.login weiterleitung.Routes.◌>>=◌ weiterleitung.Routes.outcome
    validate_credentials weiterleitung.Database.Exec.◌>>=◌ weiterleitung.Database.Exec.map_err
    weiterleitung.Authentication.Password.get_stored_credentials weiterleitung.Database.Exec.select
    weiterleitung.Database.Exec.lift weiterleitung.Text.eq_text weiterleitung.Prelude.find
    weiterleitung.Database.Exec.pure weiterleitung.Routes.in_session insert_user_id
    weiterleitung.Routes.give verify_password_hash
logged_in = refl

abbrev requests : Reaches app files visit after_login
requests = request visit (post_login form) here

Reaches-LetIn_example : (none ≡ some (uuid (lit "u1"))) ⊎ LetIn app files requests (uuid (lit "u1"))
Reaches-LetIn_example =
    Reaches-LetIn app files (λ s j. s j) sessions-IsSessionStore requests (uuid (lit "u1"))
      logged_in

abbrev told : Held
told = push_flash sessions info (lit "Hello") nobody

told_removed : (sessions.remove flash_key told).0 ≡ ok (told flash_key)
told_removed = refl

get_flash_messages-push_flash_example :
    ((get_flash_messages sessions told).0
      ≡ [] ++ (record { level = info; content = lit "Hello" } ∷ []))
    × (waiting sessions
          (λ s j. s j)
          sessions-IsSessionStore
          ((get_flash_messages sessions told).1 flash_key)
        ≡ [])
get_flash_messages-push_flash_example =
    get_flash_messages-push_flash sessions (λ s j. s j) sessions-IsSessionStore info (lit "Hello")
      nobody refl (λ x t. refl) told_removed

serve_asset-fresh_example :
    (serve_asset files
        (some (etag files (lit "a{}")))
        (lit "a{}")
        (lit "text/css")
        (etag files (lit "a{}"))
      ≡ asset 304 ((lit "cache-control", cache) ∷ (lit "etag", etag files (lit "a{}")) ∷ []) [])
    × (serve_asset files
          (some (lit "\"old\"" ++ (b',' ∷ b' ' ∷ etag files (lit "a{}"))))
          (lit "a{}")
          (lit "text/css")
          (etag files (lit "a{}"))
        ≡ asset 304 ((lit "cache-control", cache) ∷ (lit "etag", etag files (lit "a{}")) ∷ []) [])
serve_asset-fresh_example = serve_asset-fresh files (lit "a{}") (lit "text/css") (lit "\"old\"")

abbrev settings : Settings
settings = record {
  application = record {
    port = 8000;
    host = lit "::1";
    base_url = lit "http://x.io";
    hmac_secret = lit "key";
  };
  database = record { path = lit "db" };
  admin = record { username = lit "admin"; password = lit "secret" };
  aliases = router.aliases;
  inbound = record { host = lit "::1"; port = 25; hostname = lit "mx"; max_message_size = 20 };
  delivery = record {
    mode = direct;
    relay = none;
    mail_dir = lit "mail";
    poll_interval_secs = 10;
    max_attempts = 8;
    ehlo_hostname = lit "mx";
  };
  dkim = record {
    enabled = true;
    domain = lit "x.io";
    selector = lit "s";
    private_key_path = none;
  };
}

abbrev any_port : Text → ℕ → Result Text ℕ
any_port host port = ok port

abbrev running : World
running = (build_application plain any_port settings world).1

built : build_application plain any_port settings world ≡ (ok 8000, running)
unfolding build_application weiterleitung.Database.Exec.◌>>=◌ weiterleitung.Database.Exec.attempt
    weiterleitung.Authentication.Password.seed_admin_user weiterleitung.Database.Exec.map_err
    weiterleitung.Authentication.Password.compute_password_hash
    weiterleitung.Authentication.Password.draw_salt weiterleitung.Database.Exec.lift
    weiterleitung.Database.Exec.new_uuid weiterleitung.Database.Exec.now
    weiterleitung.Database.Exec.execute weiterleitung.Authentication.Password.upsert_row
    weiterleitung.Prelude.any weiterleitung.Authentication.Password.hash_with
built = refl

running_clean : running.faults ≡ []
unfolding build_application weiterleitung.Database.Exec.◌>>=◌ weiterleitung.Database.Exec.attempt
    weiterleitung.Authentication.Password.seed_admin_user weiterleitung.Database.Exec.map_err
    weiterleitung.Authentication.Password.compute_password_hash
    weiterleitung.Authentication.Password.draw_salt weiterleitung.Database.Exec.lift
    weiterleitung.Database.Exec.new_uuid weiterleitung.Database.Exec.now
    weiterleitung.Database.Exec.execute weiterleitung.Authentication.Password.upsert_row
    weiterleitung.Prelude.any weiterleitung.Authentication.Password.hash_with
running_clean = refl

serve-build_application_example :
    (id : Text) × (serve app files (post_login form) (record { session = nobody; world = running })
      ≡ (
        redirect (lit "/admin/dashboard"),
        record { session = (insert_user_id sessions id nobody).1; world = running },
      ))
unfolding insert_user_id
serve-build_application_example =
    serve-build_application app files any_port settings world nobody plain-Verifies built
      running_clean (λ id. refl)
