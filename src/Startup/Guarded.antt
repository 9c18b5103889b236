-- ===== src/Startup/Guarded.antt =====
-- What the web interface guarantees about who is logged in: the pages below `/admin` are closed to
-- others, and only a login whose credentials verify lets anyone in.
use weiterleitung.Prelude.{◌≡◌, refl, ◌≢◌, Option, none, some, Result, ok, err}
use weiterleitung.Text.{Text, lit, Unicode}
use weiterleitung.SessionState.{get_user_id, flash_error}
use weiterleitung.WebTemplates.{Response, redirect}
use weiterleitung.Authentication.Middleware.{admit, authenticated_user}
use weiterleitung.Routes.{Visit, Page, leave, in_session, ◌>>=◌, ◌>>◌, respond}
use weiterleitung.Routes.{AppState}
use weiterleitung.Routes.Assets.{AssetFiles}
use weiterleitung.Startup.{
  AdminRequest, admin, admin_route, or_rejection, guarded, build_router, serve,
}

module _ ⦃u : Unicode⦄ {S : Type 0} (app : AppState S) (files : AssetFiles) where
  turned_away :
      (page : Page S Response) (v : Visit S) (r : Result Text (Option Text) × S)
      → ((x : Text) → r.0 ≢ ok (some x))
      → respond
          (in_session (λ s. admit app.sessions r) >>= (λ e. or_rejection app files e >> page))
          v
        ≡ (
          redirect (lit "/login"),
          record {
            session =
                flash_error app.sessions (lit "You must be logged in to access that page") r.1;
            world = v.world;
          },
        )
  unfolding respond in_session ◌>>=◌ leave
  turned_away page v (ok (some x), s) h = absurd (h x refl)
  turned_away page v (ok none, s) h = refl
  turned_away page v (err e, s) h = refl

  -- A request below `/admin`, from a session that does not yield a user, is sent to the login page
  -- and told so, and the world stays as it was: no handler has run.
  pub serve-turned_away :
      (request : AdminRequest) (v : Visit S)
      → ((x : Text) → (get_user_id app.sessions v.session).0 ≢ ok (some x))
      → serve app files (admin request) v ≡ (
        redirect (lit "/login"),
        record {
          session =
              flash_error app.sessions
                (lit "You must be logged in to access that page")
                (get_user_id app.sessions v.session).1;
          world = v.world;
        },
      )
  unfolding serve build_router guarded authenticated_user in_session get_user_id ◌>>=◌ respond
  serve-turned_away request v h =
      turned_away (admin_route app files request) v (get_user_id app.sessions v.session) h
