-- ===== src/Startup/Sessions.antt =====
-- No page but the login lets anyone in.
use weiterleitung.Prelude.{Option, none, some, Result, ok, err}
use weiterleitung.Text.{Text, Unicode}
use weiterleitung.Database.{AliasWithMailbox, Alias, Mailbox}
use weiterleitung.Database.Exec.{Exec}
use weiterleitung.SessionState.{IsSessionStore, Value, get_flash_messages, get_user_id}
use weiterleitung.SessionState.Flash.{
  NoNewUser, flash_error-NoNewUser, flash_info-NoNewUser, get_flash_messages-NoNewUser,
  get_user_id-NoNewUser, log_out-NoNewUser,
}
use weiterleitung.WebTemplates.{Response}
use weiterleitung.Authentication.Middleware.{admit, authenticated_user}
use weiterleitung.Routes.{AppState, Visit, Page, give, call, in_session, ◌>>=◌, say_error, say_info}
use weiterleitung.Routes.Visits.{
  Rests, IsOrder, Rests-give, Rests-leave, Rests-outcome, Rests-call, Rests-in_session, Rests-bind,
}
use weiterleitung.Routes.Login.{login_form}
use weiterleitung.Routes.Admin.{
  dashboard, create_alias, alias_detail, toggle_alias, remove_alias, mailboxes, create_mailbox,
  remove_mailbox, styleguide, leave_session, or_refuse, unless_taken, tell_created, tell_added,
  or_no_such_alias,
}
use weiterleitung.Routes.Assets.{AssetFiles}
use weiterleitung.Startup.{
  AdminRequest, get_dashboard, get_mailboxes, get_styleguide, post_logout, post_aliases, get_alias,
  post_toggle, post_delete_alias, post_delete_mailbox, post_mailboxes, admin_route, or_rejection,
  guarded,
}

module _ ⦃u : Unicode⦄ {S : Type 0} (app : AppState S) (files : AssetFiles)
    (value : S → Text → Option Value) (laws : IsSessionStore app.sessions value) where
  abbrev pub NewcomerFree : Visit S → Visit S → Type 0
  NewcomerFree v w = NoNewUser value v.session w.session

  pub order : IsOrder NewcomerFree
  order = record { same = λ v x h. h; trans = λ a b c h k x m. h x (k x m) }

  abbrev Quiet : {A : Type 0} → Page S A → Type 0
  Quiet m = Rests NewcomerFree m

  pub say_error-Quiet : (content : Text) → Rests NewcomerFree (say_error app content)
  unfolding say_error
  say_error-Quiet content =
      Rests-in_session _ (λ v. flash_error-NoNewUser app.sessions value laws content v.session)

  say_info-Quiet : (content : Text) → Quiet (say_info app content)
  unfolding say_info
  say_info-Quiet content =
      Rests-in_session _ (λ v. flash_info-NoNewUser app.sessions value laws content v.session)

  flash-Quiet : Quiet (in_session (get_flash_messages app.sessions))
  flash-Quiet =
      Rests-in_session _ (λ v. get_flash_messages-NoNewUser app.sessions value laws v.session)

  -- A page that says something and then goes on.
  said :
      {A B : Type 0} {m : Page S A} {f : A → Page S B}
      → Quiet m
      → ((a : A) → Quiet (f a))
      → Quiet (m >>= f)
  said {A} {B} {m} {f} h k = Rests-bind order m f h k

  asked :
      {A B : Type 0} (m : Exec Response A) {f : A → Page S B}
      → ((a : A) → Quiet (f a))
      → Quiet (call m >>= f)
  asked {A} {B} m {f} k = Rests-bind order (call m) f (Rests-call m (λ v x h. h)) k

  shown : {A : Type 0} (a : A) → Quiet (give a)
  shown {A} a = Rests-give order a

  or_refuse-Quiet : {A : Type 0} (to : Response) (r : Result Text A) → Quiet (or_refuse app to r)
  or_refuse-Quiet to (ok a) = shown _
  or_refuse-Quiet to (err e) = said (say_error-Quiet e) (λ _. Rests-leave order to)

  unless_taken-Quiet :
      (address : Text) (o : Option AliasWithMailbox) → Quiet (unless_taken app address o)
  unless_taken-Quiet address none = shown _
  unless_taken-Quiet address (some a) = said (say_error-Quiet _) (λ _. Rests-leave order _)

  tell_created-Quiet : (r : Result Text Alias) → Quiet (tell_created app r)
  tell_created-Quiet (ok a) = say_info-Quiet _
  tell_created-Quiet (err e) = say_error-Quiet _

  tell_added-Quiet : (r : Result Text Mailbox) → Quiet (tell_added app r)
  tell_added-Quiet (ok m) = say_info-Quiet _
  tell_added-Quiet (err e) = say_error-Quiet _

  or_no_such_alias-Quiet : (o : Option AliasWithMailbox) → Quiet (or_no_such_alias app o)
  or_no_such_alias-Quiet (some a) = shown _
  or_no_such_alias-Quiet none = said (say_error-Quiet _) (λ _. Rests-leave order _)

  admin_route-Quiet : (request : AdminRequest) → Quiet (admin_route app files request)
  unfolding admin_route dashboard create_alias alias_detail toggle_alias remove_alias mailboxes
      create_mailbox remove_mailbox styleguide leave_session
  admin_route-Quiet get_dashboard =
      asked _ (λ _. asked _ (λ _. asked _ (λ _. said flash-Quiet (λ _. shown _))))
  admin_route-Quiet (post_aliases form) = asked _ (λ _. said (or_refuse-Quiet _ _) (λ _.
      asked _ (λ _. said (unless_taken-Quiet _ _) (λ _.
        said (Rests-outcome _ (λ v x h. h)) (λ _. said (tell_created-Quiet _) (λ _. shown _))))))
  admin_route-Quiet (get_alias alias_id) =
      asked _
        (λ _. said (or_no_such_alias-Quiet _) (λ _. asked _ (λ _. said flash-Quiet (λ _. shown _))))
  admin_route-Quiet (post_toggle alias_id) = asked _ (λ _.
      said (or_no_such_alias-Quiet _) (λ _. asked _ (λ _. said (say_info-Quiet _) (λ _. shown _))))
  admin_route-Quiet (post_delete_alias alias_id) =
      asked _ (λ _. said (say_info-Quiet _) (λ _. shown _))
  admin_route-Quiet get_mailboxes = asked _ (λ _. said flash-Quiet (λ _. shown _))
  admin_route-Quiet (post_mailboxes form) =
      said (or_refuse-Quiet _ _)
        (λ _. said (Rests-outcome _ (λ v x h. h)) (λ _. said (tell_added-Quiet _) (λ _. shown _)))
  admin_route-Quiet (post_delete_mailbox mailbox_id) =
      asked _ (λ _. said (say_info-Quiet _) (λ _. shown _))
  admin_route-Quiet get_styleguide = said flash-Quiet (λ _. shown _)
  admin_route-Quiet post_logout =
      said (Rests-in_session _ (λ v. log_out-NoNewUser app.sessions value laws v.session))
        (λ _. shown _)

  pub login_form-Quiet : Rests NewcomerFree (login_form app)
  unfolding login_form
  login_form-Quiet = said flash-Quiet (λ _. shown _)

  admit-NoNewUser :
      (s : S) (r : Result Text (Option Text) × S)
      → NoNewUser value s r.1
      → NoNewUser value s (admit app.sessions r).1
  admit-NoNewUser s (ok (some x), t) h = h
  admit-NoNewUser s (ok none, t) h =
      λ x m. h x (flash_error-NoNewUser app.sessions value laws _ t x m)
  admit-NoNewUser s (err e, t) h =
      λ x m. h x (flash_error-NoNewUser app.sessions value laws _ t x m)

  or_rejection-Quiet : (r : Result Text Text) → Quiet (or_rejection app files r)
  or_rejection-Quiet (ok x) = shown _
  or_rejection-Quiet (err location) = Rests-leave order _

  pub guarded-Quiet :
      (request : AdminRequest)
      → Rests NewcomerFree (guarded app files (admin_route app files request))
  unfolding guarded authenticated_user
  guarded-Quiet request =
      said
        (Rests-in_session _ (λ v.
          admit-NoNewUser v.session (get_user_id app.sessions v.session)
            (get_user_id-NoNewUser app.sessions value laws v.session)))
        (λ r. said (or_rejection-Quiet r) (λ _. admin_route-Quiet request))
