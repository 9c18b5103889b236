-- ===== src/Tests/Visitor.antt =====
-- A session that keeps what it is given, a hash that is the password itself, and an administrator.
use weiterleitung.Prelude.{
  ◌≡◌, refl, sym, ◌∙◌, ap, [], ◌∷◌, Option, none, some, Result, ok, err, if◌then◌else◌,
}
use weiterleitung.Text.{Text, lit, eq_text, eq_text_refl}
use weiterleitung.Database.{World, User}
use weiterleitung.SessionState.{SessionStore, IsSessionStore, Value}
use weiterleitung.Authentication.Password.{
  PasswordHashing, Credentials, verify_password_hash, hash_with,
}
use weiterleitung.Database.Exec.{replace}
use weiterleitung.Authentication.Password.Seed.{Verifies}
use weiterleitung.Routes.{AppState, Visit}
use weiterleitung.Routes.Assets.{AssetFiles}
use weiterleitung.Tests.Fixture.{tables, world, router}

abbrev pub Held : Type 0
Held = Text → Option Value

abbrev pub sessions : SessionStore Held
sessions = record {
  insert = λ k x s. (ok tt, λ j. if eq_text k j then some x else s j);
  get = λ k s. (ok (s k), s);
  remove = λ k s. (ok (s k), λ j. if eq_text k j then none else s j);
}

ok_value : {a b : Option Value} → ◌≡◌ {A = Result Text (Option Value)} (ok a) (ok b) → b ≡ a
ok_value h = cc

pub sessions-IsSessionStore : IsSessionStore sessions (λ s j. s j)
sessions-IsSessionStore = record {
  insert_ok = λ k x s j h. refl;
  insert_err = λ k x s j e h. cc;
  get_ok = λ k s o h. ok_value h;
  get_keeps = λ k s j. refl;
  remove_value = λ k s o h. ok_value h;
  remove_ok = λ k s j o h. refl;
  remove_err = λ k s j e h. cc;
}

abbrev pub plain : PasswordHashing
plain = record {
  parse = ok;
  verify_password = λ h p. if eq_text h p then ok tt else err (lit "no match");
  params = ok tt;
  hash_password = λ p salt. ok p;
}

pub plain-Verifies : Verifies plain
unfolding verify_password_hash hash_with
plain-Verifies password salt h e =
    let q : password ≡ h = cc in
    ap (λ b. replace (λ e. lit "Invalid password") (if b then ok tt else err (lit "no match")))
      (ap (λ x. eq_text x password) (sym q) ∙ eq_text_refl password)

abbrev pub app : AppState Held
app = record {
  aliases = router.aliases;
  sessions = sessions;
  hashing = plain;
  rendering = record {
    template = λ t. ok (lit "page");
    date = λ n. lit "day";
    date_time = λ n. lit "minute";
  };
}

abbrev pub files : AssetFiles
files = record { app_css = lit "a{}"; app_js = lit "f()"; hash = λ t. 255; header_value = some }

abbrev pub nobody : Held
nobody key = none

abbrev pub admin_user : User
admin_user = record {
  user_id = lit "u1";
  username = lit "admin";
  password_hash = lit "secret";
  created_at = 0;
}

abbrev pub installed : World
installed = record world { db = record tables { users = admin_user ∷ [] } }

abbrev pub right : Credentials
right = record { username = lit "admin"; password = lit "secret" }

abbrev pub wrong : Credentials
wrong = record { username = lit "admin"; password = lit "guess" }

abbrev pub visit : Visit Held
visit = record { session = nobody; world = installed }
