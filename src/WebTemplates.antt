-- ===== src/WebTemplates.antt =====
-- src/web_templates.rs: what the pages are made from. The template engine askama, and chrono's
-- `format`, are third-party: they are the parameter `Rendering`.
use weiterleitung.Prelude.{ℕ, Bool, List, Result, ok, err}
use weiterleitung.Text.{Text, lit}
use weiterleitung.Database.{Status}
use weiterleitung.SessionState.{FlashMessage}

pub record AliasView : Type 0 where
  pub alias_id : Text
  pub address : Text
  pub mailbox_email : Text
  pub note : Text
  pub enabled : Bool
  pub forward_count : ℕ
  pub reply_count : ℕ
  pub blocked_count : ℕ
  pub created_at : Text

pub record MailboxView : Type 0 where
  pub mailbox_id : Text
  pub email : Text
  pub is_default : Bool
  pub alias_count : ℕ

pub record MessageView : Type 0 where
  pub direction : Text
  pub envelope_from : Text
  pub envelope_to : Text
  pub subject : Text
  pub status : Status
  pub attempts : ℕ
  pub last_error : Text
  pub created_at : Text

pub record ContactView : Type 0 where
  pub email : Text
  pub name : Text
  pub reverse_alias : Text
  pub created_at : Text

pub record DashboardTemplate : Type 0 where
  pub flash_messages : List FlashMessage
  pub aliases : List AliasView
  pub mailboxes : List MailboxView
  pub messages : List MessageView
  pub default_domain : Text

pub record AliasTemplate : Type 0 where
  pub flash_messages : List FlashMessage
  pub alias : AliasView
  pub contacts : List ContactView

-- The templates, each with what it shows.
pub data Template : Type 0 where
  login_page : List FlashMessage → Template
  dashboard_page : DashboardTemplate → Template
  mailboxes_page : List FlashMessage → List MailboxView → Template
  styleguide_page : List FlashMessage → Template
  alias_page : AliasTemplate → Template

pub record Rendering : Type 0 where
  pub template : Template → Result Text Text
  -- `%Y-%m-%d` and `%Y-%m-%d %H:%M`.
  pub date : ℕ → Text
  pub date_time : ℕ → Text

-- What a handler hands to axum.
pub data Response : Type 0 where
  redirect : Text → Response
  html : Text → Response
  status : ℕ → Text → Response
  asset : ℕ → List (Text × Text) → Text → Response

abbrev pub rendered : Result Text Text → Response
rendered (ok body) = html body
rendered (err e) = status 500 (lit "Template error")

unfoldable pub render : Rendering → Template → Response
render r t = rendered (r.template t)
