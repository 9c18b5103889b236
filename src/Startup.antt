-- ===== src/Startup.antt =====
-- src/startup.rs: the routes of the web interface. axum finds the route of a request and reads its
-- parts; `Request` has a constructor for each route, with what the handler takes from the request.
pub mod Guarded
pub mod Sessions
pub mod Admission
pub mod Application
use weiterleitung.Prelude.{Option, Result, ok, err}
use weiterleitung.Text.{Text, Unicode}
use weiterleitung.WebTemplates.{Response, redirect}
use weiterleitung.Authentication.Middleware.{authenticated_user}
use weiterleitung.Routes.{
  AppState, Page, give, leave, in_session, ◌>>=◌, ◌>>◌, health_check, respond, Visit,
}
use weiterleitung.Routes.Login.{home, LoginFormData, login_form, login}
use weiterleitung.Routes.Admin.{
  CreateAliasForm, CreateMailboxForm, dashboard, create_alias, alias_detail, toggle_alias,
  remove_alias, mailboxes, create_mailbox, remove_mailbox, styleguide, leave_session,
}
use weiterleitung.Routes.Assets.{AssetFiles, serve_css, serve_js}

-- Below `/admin`.
pub data AdminRequest : Type 0 where
  get_dashboard get_mailboxes get_styleguide post_logout : AdminRequest
  post_aliases : CreateAliasForm → AdminRequest
  get_alias post_toggle post_delete_alias post_delete_mailbox : Text → AdminRequest
  post_mailboxes : CreateMailboxForm → AdminRequest

pub data Request : Type 0 where
  get_home get_health_check get_login : Request
  post_login : LoginFormData → Request
  get_app_css get_app_js : Option Text → Request
  admin : AdminRequest → Request

module _ ⦃u : Unicode⦄ {S : Type 0} (app : AppState S) (files : AssetFiles) where
  unfoldable pub admin_route : AdminRequest → Page S Response
  admin_route get_dashboard = dashboard app
  admin_route (post_aliases form) = create_alias app form
  admin_route (get_alias alias_id) = alias_detail app alias_id
  admin_route (post_toggle alias_id) = toggle_alias app alias_id
  admin_route (post_delete_alias alias_id) = remove_alias app alias_id
  admin_route get_mailboxes = mailboxes app
  admin_route (post_mailboxes form) = create_mailbox app form
  admin_route (post_delete_mailbox mailbox_id) = remove_mailbox app mailbox_id
  admin_route get_styleguide = styleguide app
  admin_route post_logout = leave_session app

  abbrev pub or_rejection : Result Text Text → Page S Text
  or_rejection (ok user_id) = give user_id
  or_rejection (err location) = leave (redirect location)

  -- The `route_layer` of the admin routes.
  unfoldable pub guarded : Page S Response → Page S Response
  guarded page = do
    extracted ← in_session (authenticated_user app.sessions)
    user_id ← or_rejection extracted
    page

  unfoldable pub build_router : Request → Page S Response
  build_router get_home = give home
  build_router get_health_check = give health_check
  build_router get_login = login_form app
  build_router (post_login form) = login app form
  build_router (get_app_css if_none_match) = give (serve_css files if_none_match)
  build_router (get_app_js if_none_match) = give (serve_js files if_none_match)
  build_router (admin request) = guarded (admin_route request)

  unfoldable pub serve : Request → Visit S → Response × Visit S
  serve request = respond (build_router request)
