-- ===== src/Routes.antt =====
-- src/routes: the handlers of the web interface. A page runs over a visit, the session of the
-- visitor and the world; an early `return` is a response in the place of the value.
pub mod Login
pub mod Admin
pub mod Assets
pub mod Visits
use weiterleitung.Prelude.{[], Result, ok, err}
use weiterleitung.Text.{Text, lit}
use weiterleitung.Database.{World}
use weiterleitung.Database.Exec.{Exec, replace}
use weiterleitung.Configuration.{AliasSettings}
use weiterleitung.SessionState.{
  SessionStore, FlashMessage, flash_error, flash_info, get_flash_messages,
}
use weiterleitung.WebTemplates.{Rendering, Response, redirect, status}
use weiterleitung.Authentication.Password.{PasswordHashing}

-- `AppState` of src/startup.rs, with the parts that are third-party. The pool is the world.
pub record AppState (S : Type 0) : Type 0 where
  pub aliases : AliasSettings
  pub sessions : SessionStore S
  pub hashing : PasswordHashing
  pub rendering : Rendering

pub record Visit (S : Type 0) : Type 0 where
  pub session : S
  pub world : World

abbrev pub Page : Type 0 → Type 0 → Type 0
Page S A = Visit S → Result Response A × Visit S

module _ {S A : Type 0} where
  unfoldable pub give : A → Page S A
  give a v = (ok a, v)

  unfoldable pub leave : Response → Page S A
  leave r v = (err r, v)

  abbrev pub outcome_of :
      {E : Type 0} → S → Result E A × World → Result Response (Result E A) × Visit S
  outcome_of s (r, w) = (ok r, record { session = s; world = w })

  -- A call whose error the handler looks at.
  unfoldable pub outcome : {E : Type 0} → Exec E A → Page S (Result E A)
  outcome m v = outcome_of v.session (m v.world)

  -- A call whose error is the answer.
  unfoldable pub call : Exec Response A → Page S A
  call m v = ((m v.world).0, record { session = v.session; world = (m v.world).1 })

  unfoldable pub in_session : (S → A × S) → Page S A
  in_session f v = (ok (f v.session).0, record { session = (f v.session).1; world = v.world })

module _ {S A B : Type 0} where
  abbrev pub proceed : Result Response A → (A → Page S B) → Page S B
  proceed (ok a) f v = f a v
  proceed (err r) f v = (err r, v)

  infixl 10 ◌>>=◌ ◌>>◌
  unfoldable pub ◌>>=◌ : Page S A → (A → Page S B) → Page S B
  ◌>>=◌ m f v = proceed (m v).0 f (m v).1

  abbrev pub ◌>>◌ : Page S A → Page S B → Page S B
  m >> n = m >>= λ _. n

abbrev pub answer_of : Result Response Response → Response
answer_of (ok r) = r
answer_of (err r) = r

-- The response, returned early or not.
unfoldable pub respond : {S : Type 0} → Page S Response → Visit S → Response × Visit S
respond m v = (answer_of (m v).0, (m v).1)

unfoldable pub internal_error : Text → Text → Response
internal_error context error = status 500 context

-- `match m { Ok(a) => a, Err(e) => return internal_error(e, context) }`.
abbrev pub or_internal_error : {S A : Type 0} → Text → Exec Text A → Page S A
or_internal_error context m = call (λ w. (replace (internal_error context) (m w).0, (m w).1))

module _ {S : Type 0} (app : AppState S) where
  unfoldable pub say_error : Text → Page S (Unit {0})
  say_error content = in_session (λ s. (tt, flash_error app.sessions content s))

  unfoldable pub say_info : Text → Page S (Unit {0})
  say_info content = in_session (λ s. (tt, flash_info app.sessions content s))

-- src/routes/health_check.rs.
abbrev pub health_check : Response
health_check = status 200 []
