-- ===== src/Routes/Login.antt =====
-- src/routes/login.rs: the start page, and logging in.
use weiterleitung.Prelude.{Result, ok, err}
use weiterleitung.Text.{Text, lit}
use weiterleitung.SessionState.{insert_user_id, get_flash_messages}
use weiterleitung.WebTemplates.{Response, redirect, login_page, render}
use weiterleitung.Authentication.Password.{
  AuthError, invalid_credentials, unexpected_error, validate_credentials,
}
use weiterleitung.Routes.{AppState, Page, give, outcome, in_session, ◌>>=◌, ◌>>◌, say_error}

abbrev pub home : Response
home = redirect (lit "/admin/dashboard")

pub record LoginFormData : Type 0 where
  pub username : Text
  pub password : Text

module _ {S : Type 0} (app : AppState S) where
  unfoldable pub login_form : Page S Response
  login_form = do
    flash ← in_session (get_flash_messages app.sessions)
    give (render app.rendering (login_page flash))

  abbrev pub started : Result Text (Unit {0}) → Page S Response
  started (ok t) = give (redirect (lit "/admin/dashboard"))
  started (err e) = do
    say_error app (lit "Could not start a session")
    give (redirect (lit "/login"))

  -- The arms of the `match` on the credentials.
  abbrev pub start_session : Result AuthError Text → Page S Response
  start_session (ok user_id) = in_session (insert_user_id app.sessions user_id) >>= started
  start_session (err (invalid_credentials e)) = do
    say_error app (lit "Invalid credentials")
    give (redirect (lit "/login"))
  start_session (err (unexpected_error e)) = do
    say_error app (lit "Something went wrong")
    give (redirect (lit "/login"))

  unfoldable pub login : LoginFormData → Page S Response
  login form = do
    checked ← outcome (
        validate_credentials app.hashing
          (record { username = form.username; password = form.password }))
    start_session checked
