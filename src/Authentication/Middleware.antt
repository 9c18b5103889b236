-- ===== src/Authentication/Middleware.antt =====
-- src/authentication/middleware.rs: the extractor that guards the pages of the administrator. The
-- session layer is there for every route, so a session can always be extracted.
use weiterleitung.Prelude.{Option, some, Result, ok, err}
use weiterleitung.Text.{Text, lit}
use weiterleitung.SessionState.{SessionStore, get_user_id, flash_error}

-- Who is logged in, or the place to go to instead.
abbrev pub admit :
    {S : Type 0} → SessionStore S → Result Text (Option Text) × S → Result Text Text × S
admit store (ok (some user_id), s) = (ok user_id, s)
admit store (_, s) =
    (err (lit "/login"), flash_error store (lit "You must be logged in to access that page") s)

unfoldable pub authenticated_user : {S : Type 0} → SessionStore S → S → Result Text Text × S
authenticated_user store s = admit store (get_user_id store s)
