-- ===== src/Routes/Admin.antt =====
-- src/routes/admin.rs: the pages of the administrator.
use weiterleitung.Prelude.{
  ℕ, Bool, true, false, not, List, [], ◌++◌, map, find, is_empty, if◌then◌else◌, Option, none, some,
  Result, ok, err,
}
use weiterleitung.Text.{Text, lit, eq_text, Unicode}
use weiterleitung.Text.Trim.{trim}
use weiterleitung.Domain.EmailAddress.{parse, to_string}
use weiterleitung.Database.{Mailbox, Alias, AliasWithMailbox, Contact, QueuedMessage}
use weiterleitung.Database.Exec.{Exec, pure}
use weiterleitung.Alias.{
  find_alias_by_address, insert_alias, list_aliases, set_alias_enabled, delete_alias,
}
use weiterleitung.Alias.Generator.{random_local_part}
use weiterleitung.Contact.{list_contacts_for_alias}
use weiterleitung.Mailbox.{list_mailboxes_with_alias_counts, insert_mailbox, delete_mailbox}
use weiterleitung.Delivery.Queue.{list_recent}
use weiterleitung.Configuration.{default_domain}
use weiterleitung.SessionState.{get_flash_messages, log_out}
use weiterleitung.WebTemplates.{
  AliasView, MailboxView, MessageView, ContactView, Rendering, Response, redirect, dashboard_page,
  mailboxes_page, styleguide_page, alias_page, render,
}
use weiterleitung.Routes.{
  AppState, Page, give, leave, outcome, call, in_session, ◌>>=◌, ◌>>◌, or_internal_error, say_error,
  say_info,
}

abbrev pub recent_message_limit : ℕ
recent_message_limit = 50

abbrev pub or_empty : Option Text → Text
or_empty none = []
or_empty (some t) = t

abbrev pub view_alias : Rendering → AliasWithMailbox → AliasView
view_alias r a = record {
  alias_id = a.alias.alias_id;
  address = a.alias.address;
  mailbox_email = a.mailbox_email;
  note = or_empty a.alias.note;
  enabled = a.alias.enabled;
  forward_count = a.alias.forward_count;
  reply_count = a.alias.reply_count;
  blocked_count = a.alias.blocked_count;
  created_at = r.date a.alias.created_at;
}

abbrev pub view_mailbox : Mailbox × ℕ → MailboxView
view_mailbox (m, alias_count) = record {
  mailbox_id = m.mailbox_id;
  email = m.email;
  is_default = m.is_default;
  alias_count = alias_count;
}

abbrev pub view_message : Rendering → QueuedMessage → MessageView
view_message r m = record {
  direction = m.direction;
  envelope_from = m.envelope_from;
  envelope_to = m.envelope_to;
  subject = or_empty m.subject;
  status = m.status;
  attempts = m.attempts;
  last_error = or_empty m.last_error;
  created_at = r.date_time m.created_at;
}

abbrev pub view_contact : Rendering → Contact → ContactView
view_contact r c = record {
  email = c.email;
  name = or_empty c.name;
  reverse_alias = c.reverse_alias;
  created_at = r.date c.created_at;
}

pub record CreateAliasForm : Type 0 where
  pub local_part : Text
  pub mailbox_id : Text
  pub note : Text

pub record CreateMailboxForm : Type 0 where
  pub email : Text
  pub is_default : Option Text

abbrev pub to_dashboard : Response
to_dashboard = redirect (lit "/admin/dashboard")

abbrev pub to_mailboxes : Response
to_mailboxes = redirect (lit "/admin/mailboxes")

abbrev pub is_some : {A : Type 0} → Option A → Bool
is_some none = false
is_some (some a) = true

-- `(!note.trim().is_empty()).then(|| note.trim())`.
abbrev pub trimmed_note : Text → Option Text
trimmed_note note = if is_empty (trim note) then none else some (trim note)

unfoldable pub chosen_local_part : Text → Exec Response Text
chosen_local_part local_part =
    if is_empty (trim local_part) then random_local_part else pure (trim local_part)

unfoldable pub with_alias_id : Text → List AliasWithMailbox → Option AliasWithMailbox
with_alias_id alias_id rows = find (λ r. eq_text r.alias.alias_id alias_id) rows

abbrev pub word_of : Bool → Text
word_of true = lit "disabled"
word_of false = lit "enabled"

module _ {S : Type 0} (app : AppState S) where
  unfoldable pub dashboard : Page S Response
  dashboard = do
    aliases ← or_internal_error (lit "Failed to list the aliases") list_aliases
    mailboxes ←
        or_internal_error (lit "Failed to list the mailboxes") list_mailboxes_with_alias_counts
    messages ←
        or_internal_error (lit "Failed to list the recent messages")
          (list_recent recent_message_limit)
    flash ← in_session (get_flash_messages app.sessions)
    give (
        render app.rendering (
          dashboard_page (record {
            flash_messages = flash;
            aliases = map (view_alias app.rendering) aliases;
            mailboxes = map view_mailbox mailboxes;
            messages = map (view_message app.rendering) messages;
            default_domain = default_domain app.aliases;
          })))

  abbrev pub or_refuse : {A : Type 0} → Response → Result Text A → Page S A
  or_refuse to (ok a) = give a
  or_refuse to (err e) = do say_error app e; leave to

  abbrev pub unless_taken : Text → Option AliasWithMailbox → Page S (Unit {0})
  unless_taken address none = give tt
  unless_taken address (some a) = do
    say_error app (address ++ lit " already exists")
    leave to_dashboard

  abbrev pub tell_created : Result Text Alias → Page S (Unit {0})
  tell_created (ok a) = say_info app (lit "Created " ++ a.address)
  tell_created (err e) = say_error app (lit "Failed to create the alias")

  unfoldable pub create_alias : ⦃u : Unicode⦄ → CreateAliasForm → Page S Response
  create_alias form = do
    local_part ← call (chosen_local_part form.local_part)
    address ← or_refuse to_dashboard (parse (local_part ++ (lit "@" ++ default_domain app.aliases)))
    existing ←
        or_internal_error (lit "Failed to check for an existing alias")
          (find_alias_by_address address)
    unless_taken (to_string address) existing
    created ← outcome (insert_alias address form.mailbox_id (trimmed_note form.note))
    tell_created created
    give to_dashboard

  abbrev pub or_no_such_alias : Option AliasWithMailbox → Page S AliasWithMailbox
  or_no_such_alias (some a) = give a
  or_no_such_alias none = do say_error app (lit "No such alias"); leave to_dashboard

  unfoldable pub toggle_alias : Text → Page S Response
  toggle_alias alias_id = do
    aliases ← or_internal_error (lit "Failed to list the aliases") list_aliases
    a ← or_no_such_alias (with_alias_id alias_id aliases)
    or_internal_error (lit "Failed to toggle the alias")
        (set_alias_enabled alias_id (not a.alias.enabled))
    say_info app (a.alias.address ++ (lit " is now " ++ word_of a.alias.enabled))
    give to_dashboard

  unfoldable pub remove_alias : Text → Page S Response
  remove_alias alias_id = do
    or_internal_error (lit "Failed to delete the alias") (delete_alias alias_id)
    say_info app (lit "Alias deleted")
    give to_dashboard

  unfoldable pub alias_detail : Text → Page S Response
  alias_detail alias_id = do
    aliases ← or_internal_error (lit "Failed to list the aliases") list_aliases
    a ← or_no_such_alias (with_alias_id alias_id aliases)
    contacts ←
        or_internal_error (lit "Failed to list the contacts") (list_contacts_for_alias alias_id)
    flash ← in_session (get_flash_messages app.sessions)
    give (
        render app.rendering (
          alias_page (record {
            flash_messages = flash;
            alias = view_alias app.rendering a;
            contacts = map (view_contact app.rendering) contacts;
          })))

  unfoldable pub mailboxes : Page S Response
  mailboxes = do
    rows ← or_internal_error (lit "Failed to list the mailboxes") list_mailboxes_with_alias_counts
    flash ← in_session (get_flash_messages app.sessions)
    give (render app.rendering (mailboxes_page flash (map view_mailbox rows)))

  abbrev pub tell_added : Result Text Mailbox → Page S (Unit {0})
  tell_added (ok m) = say_info app (lit "Added " ++ m.email)
  tell_added (err e) = say_error app (lit "Failed to add the mailbox")

  unfoldable pub create_mailbox : ⦃u : Unicode⦄ → CreateMailboxForm → Page S Response
  create_mailbox form = do
    email ← or_refuse to_mailboxes (parse form.email)
    added ← outcome (insert_mailbox email (is_some form.is_default))
    tell_added added
    give to_mailboxes

  unfoldable pub remove_mailbox : Text → Page S Response
  remove_mailbox mailbox_id = do
    or_internal_error (lit "Failed to delete the mailbox") (delete_mailbox mailbox_id)
    say_info app (lit "Mailbox deleted")
    give to_mailboxes

  unfoldable pub styleguide : Page S Response
  styleguide = do
    flash ← in_session (get_flash_messages app.sessions)
    give (render app.rendering (styleguide_page flash))

  -- A session that cannot be cleared is only logged.
  unfoldable pub leave_session : Page S Response
  leave_session = do cleared ← in_session (log_out app.sessions); give (redirect (lit "/login"))
