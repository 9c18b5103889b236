-- ===== src/Configuration.antt =====
-- src/configuration.rs: the settings, and the environment that selects their file. A secret is its
-- text, and a path its text. Reading the files is left to the third-party crate config.
use weiterleitung.Prelude.{
  ℕ, ◌*◌, Bool, List, [], ◌∷◌, ◌++◌, any, Option, Result, ok, err, if◌then◌else◌,
}
use weiterleitung.Text.{Text, lit, eq_text, Unicode, eq_ignore_ascii_case}
use weiterleitung.Text.Trim.{trim_end_matches}
use weiterleitung.Domain.EmailAddress.{is_char}

pub record ApplicationSettings : Type 0 where
  pub port : ℕ
  pub host : Text
  pub base_url : Text
  pub hmac_secret : Text

pub record DatabaseSettings : Type 0 where
  pub path : Text

unfoldable pub connection_string : DatabaseSettings → Text
connection_string s = lit "sqlite://" ++ (s.path ++ lit "?mode=rwc")

pub record AdminSettings : Type 0 where
  pub username : Text
  pub password : Text

pub record AliasSettings : Type 0 where
  pub domains : List Text
  pub reverse_alias_prefix : Text

abbrev pub default_reverse_alias_prefix : Text
default_reverse_alias_prefix = lit "ct"

-- The empty text stands for the panic of `expect` on a configuration with no domain.
abbrev pub first_domain : List Text → Text
first_domain [] = []
first_domain (d ∷ ds) = d

unfoldable pub default_domain : AliasSettings → Text
default_domain s = first_domain s.domains

unfoldable pub owns_domain : AliasSettings → Text → Bool
unfolding any
owns_domain s domain =
    any (λ d. eq_ignore_ascii_case d (trim_end_matches (is_char b'.') domain)) s.domains

pub record InboundSettings : Type 0 where
  pub host : Text
  pub port : ℕ
  pub hostname : Text
  pub max_message_size : ℕ

abbrev pub default_max_message_size : ℕ
default_max_message_size = 25 * 1024 * 1024

pub data DeliveryMode : Type 0 where
  relay direct : DeliveryMode

pub record RelaySettings : Type 0 where
  pub host : Text
  pub port : ℕ
  pub username : Option Text
  pub password : Option Text
  pub implicit_tls : Bool

pub record DeliverySettings : Type 0 where
  pub mode : DeliveryMode
  pub relay : Option RelaySettings
  pub mail_dir : Text
  pub poll_interval_secs : ℕ
  pub max_attempts : ℕ
  pub ehlo_hostname : Text

abbrev pub default_poll_interval_secs : ℕ
default_poll_interval_secs = 10

abbrev pub default_max_attempts : ℕ
default_max_attempts = 8

pub record DkimSettings : Type 0 where
  pub enabled : Bool
  pub domain : Text
  pub selector : Text
  pub private_key_path : Option Text

pub record Settings : Type 0 where
  pub application : ApplicationSettings
  pub database : DatabaseSettings
  pub admin : AdminSettings
  pub aliases : AliasSettings
  pub inbound : InboundSettings
  pub delivery : DeliverySettings
  pub dkim : DkimSettings

pub data Environment : Type 0 where
  local production : Environment

unfoldable pub name_of : Environment → Text
name_of local = lit "local"
name_of production = lit "production"

abbrev pub not_supported : Text → Text
not_supported other =
    other ++ lit " is not a supported environment. Use either `local` or `production`"

unfoldable pub environment_named : Text → Result Text Environment
unfolding eq_text
environment_named name =
    if eq_text name (lit "local")
    then ok local
    else if eq_text name (lit "production")
    then ok production
    else err (not_supported name)

unfoldable pub environment_of : ⦃u : Unicode⦄ → Text → Result Text Environment
environment_of ⦃u⦄ s = environment_named (u.to_lowercase s)
