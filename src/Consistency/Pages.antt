-- ===== src/Consistency/Pages.antt =====
-- The web interface keeps the tables consistent.
use weiterleitung.Prelude.{ℕ, zero, suc, Option, none, some, Result, ok, err, is_empty}
use weiterleitung.Text.{Text, Unicode}
use weiterleitung.Text.Trim.{trim}
use weiterleitung.Database.{Db, AliasWithMailbox, Alias, Mailbox}
use weiterleitung.Database.Exec.{Exec, select, draw_below}
use weiterleitung.Database.Frame.{
  Steps, Steps-pure, Steps-if, Steps-lift, Steps-select, Steps-attempt, Steps-map_err, Steps-fail,
  Steps-draw_byte,
}
use weiterleitung.Alias.Generator.{random_token, random_local_part}
use weiterleitung.Alias.{list_aliases, find_alias_by_address}
use weiterleitung.Contact.{list_contacts_for_alias}
use weiterleitung.Mailbox.{list_mailboxes_with_alias_counts}
use weiterleitung.Delivery.Queue.{list_recent}
use weiterleitung.Authentication.Password.{
  Credentials, PasswordHashing, get_stored_credentials, or_unknown, validate_credentials, AuthError,
  invalid_credentials, unexpected_error,
}
use weiterleitung.WebTemplates.{Response}
use weiterleitung.Routes.{
  AppState, Visit, Page, give, leave, outcome, call, in_session, say_error, say_info,
  or_internal_error, respond,
}
use weiterleitung.Routes
use weiterleitung.Routes.Visits.{
  Rests, IsOrder, Rests-give, Rests-leave, Rests-outcome, Rests-call, Rests-in_session, Rests-bind,
}
use weiterleitung.Routes.Login.{login_form, login, started, start_session}
use weiterleitung.Routes.Admin.{
  dashboard, create_alias, alias_detail, toggle_alias, remove_alias, mailboxes, create_mailbox,
  remove_mailbox, styleguide, leave_session, or_refuse, unless_taken, tell_created, tell_added,
  or_no_such_alias, chosen_local_part,
}
use weiterleitung.Routes.Assets.{AssetFiles}
use weiterleitung.Startup.{
  AdminRequest, get_dashboard, get_mailboxes, get_styleguide, post_logout, post_aliases, get_alias,
  post_toggle, post_delete_alias, post_delete_mailbox, post_mailboxes, admin_route, or_rejection,
  guarded, Request, get_home, get_health_check, get_login, post_login, get_app_css, get_app_js,
  admin, build_router, serve,
}
use weiterleitung.Consistency.{Keeps, Keeps-IsFrame}
use weiterleitung.Consistency.Handlers.{
  step, insert_alias-Keeps, set_alias_enabled-Keeps, delete_alias-Keeps, insert_mailbox-Keeps,
  delete_mailbox-Keeps,
}

random_token-Keeps : {E : Type 0} (n : ℕ) → Steps Keeps (random_token {E = E} n)
unfolding random_token
random_token-Keeps zero = Steps-pure Keeps-IsFrame _
random_token-Keeps (suc n) =
    step (Steps-draw_byte Keeps-IsFrame)
      (λ byte. step (random_token-Keeps n) (λ rest. Steps-pure Keeps-IsFrame _))

draw_below-Keeps : {E : Type 0} (n : ℕ) → Steps Keeps (draw_below {E = E} n)
unfolding draw_below
draw_below-Keeps n = record { at = λ w c. c }

chosen_local_part-Keeps : (t : Text) → Steps Keeps (chosen_local_part t)
unfolding chosen_local_part random_local_part
chosen_local_part-Keeps t =
    Steps-if Keeps-IsFrame (is_empty (trim t)) _ _
      (step (draw_below-Keeps _) (λ i.
        step (draw_below-Keeps _)
          (λ j. step (random_token-Keeps 4) (λ k. Steps-pure Keeps-IsFrame _))))
      (Steps-pure Keeps-IsFrame _)

or_unknown-Keeps : (o : Option (Text × Text)) → Steps Keeps (or_unknown o)
or_unknown-Keeps none = Steps-fail Keeps-IsFrame _
or_unknown-Keeps (some (i, h)) = Steps-pure Keeps-IsFrame _

validate_credentials-Keeps :
    (hashing : PasswordHashing) (c : Credentials) → Steps Keeps (validate_credentials hashing c)
unfolding validate_credentials get_stored_credentials
validate_credentials-Keeps hashing c =
    step (Steps-map_err _ _ (Steps-map_err _ _ (Steps-select Keeps-IsFrame _))) (λ row.
      step (Steps-map_err _ _ (Steps-attempt Keeps-IsFrame))
        (λ _. step (Steps-map_err _ _ (Steps-lift Keeps-IsFrame _)) (λ _. or_unknown-Keeps row)))

abbrev KeepsVisit : {S : Type 0} → Visit S → Visit S → Type 0
KeepsVisit v w = Keeps v.world w.world

order : {S : Type 0} → IsOrder {S = S} KeepsVisit
order = record { same = λ v c. c; trans = λ a b c f g h. g (f h) }

module _ {S : Type 0} (app : AppState S) where
  abbrev Kept : {A : Type 0} → Page S A → Type 0
  Kept m = Rests KeepsVisit m

  go :
      {A B : Type 0} {m : Page S A} {f : A → Page S B}
      → Kept m
      → ((a : A) → Kept (f a))
      → Kept (Routes.◌>>=◌ m f)
  go {A} {B} {m} {f} h k = Rests-bind order m f h k

  shown : {A : Type 0} (a : A) → Kept (give a)
  shown a = Rests-give order a

  said : {A : Type 0} (f : S → A × S) → Kept (in_session f)
  said f = Rests-in_session f (λ v c. c)

  called : {A : Type 0} (m : Exec Response A) → Steps Keeps m → Kept (call m)
  called m h = Rests-call m (λ v. h.at v.world)

  tried : {E A : Type 0} (m : Exec E A) → Steps Keeps m → Kept (outcome m)
  tried m h = Rests-outcome m (λ v. h.at v.world)

  say_error-Kept : (content : Text) → Kept (say_error app content)
  unfolding say_error
  say_error-Kept content = said _

  say_info-Kept : (content : Text) → Kept (say_info app content)
  unfolding say_info
  say_info-Kept content = said _

  -- A database call whose error is the answer.
  asked :
      {A : Type 0} (context : Text) (m : Exec Text A)
      → Steps Keeps m
      → Kept (or_internal_error {S = S} context m)
  asked context m h = Rests-call _ (λ v. h.at v.world)

  read :
      {A : Type 0} (context : Text) (q : Db → A)
      → Kept (or_internal_error {S = S} context (select q))
  read context q = asked context (select q) (Steps-select Keeps-IsFrame q)

  or_refuse-Kept : {A : Type 0} (to : Response) (r : Result Text A) → Kept (or_refuse app to r)
  or_refuse-Kept to (ok a) = shown _
  or_refuse-Kept to (err e) = go (say_error-Kept e) (λ _. Rests-leave order to)

  unless_taken-Kept :
      (address : Text) (o : Option AliasWithMailbox) → Kept (unless_taken app address o)
  unless_taken-Kept address none = shown _
  unless_taken-Kept address (some a) = go (say_error-Kept _) (λ _. Rests-leave order _)

  tell_created-Kept : (r : Result Text Alias) → Kept (tell_created app r)
  tell_created-Kept (ok a) = say_info-Kept _
  tell_created-Kept (err e) = say_error-Kept _

  tell_added-Kept : (r : Result Text Mailbox) → Kept (tell_added app r)
  tell_added-Kept (ok m) = say_info-Kept _
  tell_added-Kept (err e) = say_error-Kept _

  or_no_such_alias-Kept : (o : Option AliasWithMailbox) → Kept (or_no_such_alias app o)
  or_no_such_alias-Kept (some a) = shown _
  or_no_such_alias-Kept none = go (say_error-Kept _) (λ _. Rests-leave order _)

  started-Kept : (r : Result Text (Unit {0})) → Kept (started app r)
  started-Kept (ok t) = shown _
  started-Kept (err e) = go (say_error-Kept _) (λ _. shown _)

  start_session-Kept : (r : Result AuthError Text) → Kept (start_session app r)
  start_session-Kept (ok id) = go (said _) started-Kept
  start_session-Kept (err (invalid_credentials e)) = go (say_error-Kept _) (λ _. shown _)
  start_session-Kept (err (unexpected_error e)) = go (say_error-Kept _) (λ _. shown _)

module _ ⦃u : Unicode⦄ {S : Type 0} (app : AppState S) (files : AssetFiles) where
  admin_route-Kept : (request : AdminRequest) → Kept app (admin_route app files request)
  unfolding admin_route dashboard create_alias alias_detail toggle_alias remove_alias mailboxes
      create_mailbox remove_mailbox styleguide leave_session list_aliases find_alias_by_address
      list_contacts_for_alias list_mailboxes_with_alias_counts list_recent
  admin_route-Kept get_dashboard = go app (read app _ _) (λ _.
      go app (read app _ _)
        (λ _. go app (read app _ _) (λ _. go app (said app _) (λ _. shown app _))))
  admin_route-Kept (post_aliases form) =
      go app (called app _ (chosen_local_part-Keeps form.local_part)) (λ _.
        go app (or_refuse-Kept app _ _) (λ address. go app (read app _ _) (λ _.
          go app (unless_taken-Kept app _ _) (λ _.
            go app (tried app _ (insert_alias-Keeps address _ _))
              (λ _. go app (tell_created-Kept app _) (λ _. shown app _))))))
  admin_route-Kept (get_alias alias_id) = go app (read app _ _) (λ _.
      go app (or_no_such_alias-Kept app _)
        (λ _. go app (read app _ _) (λ _. go app (said app _) (λ _. shown app _))))
  admin_route-Kept (post_toggle alias_id) = go app (read app _ _) (λ _.
      go app (or_no_such_alias-Kept app _) (λ _.
        go app (asked app _ _ (set_alias_enabled-Keeps alias_id _))
          (λ _. go app (say_info-Kept app _) (λ _. shown app _))))
  admin_route-Kept (post_delete_alias alias_id) =
      go app (asked app _ _ (delete_alias-Keeps alias_id))
        (λ _. go app (say_info-Kept app _) (λ _. shown app _))
  admin_route-Kept get_mailboxes =
      go app (read app _ _) (λ _. go app (said app _) (λ _. shown app _))
  admin_route-Kept (post_mailboxes form) = go app (or_refuse-Kept app _ _) (λ email.
      go app (tried app _ (insert_mailbox-Keeps email _))
        (λ _. go app (tell_added-Kept app _) (λ _. shown app _)))
  admin_route-Kept (post_delete_mailbox mailbox_id) =
      go app (asked app _ _ (delete_mailbox-Keeps mailbox_id))
        (λ _. go app (say_info-Kept app _) (λ _. shown app _))
  admin_route-Kept get_styleguide = go app (said app _) (λ _. shown app _)
  admin_route-Kept post_logout = go app (said app _) (λ _. shown app _)

  or_rejection-Kept : (r : Result Text Text) → Kept app (or_rejection app files r)
  or_rejection-Kept (ok x) = shown app _
  or_rejection-Kept (err location) = Rests-leave order _

  page-Kept : (request : Request) → Kept app (build_router app files request)
  unfolding build_router guarded login login_form
  page-Kept get_home = shown app _
  page-Kept get_health_check = shown app _
  page-Kept get_login = go app (said app _) (λ _. shown app _)
  page-Kept (post_login form) =
      go app (tried app _ (validate_credentials-Keeps app.hashing _)) (start_session-Kept app)
  page-Kept (get_app_css tag) = shown app _
  page-Kept (get_app_js tag) = shown app _
  page-Kept (admin request) =
      go app (said app _) (λ r. go app (or_rejection-Kept r) (λ _. admin_route-Kept request))

  pub serve-Keeps :
      (request : Request) (v : Visit S) → Keeps v.world (serve app files request v).1.world
  unfolding serve respond
  serve-Keeps request v = (page-Kept request).at v
