-- ===== src/Smtp/Router.antt =====
-- src/smtp/router.rs: what an accepted recipient means, and the mail that is queued for it.
pub mod Authority
pub mod Quiet
pub mod Queued
pub mod Closed
pub mod Served
pub mod Replies
use weiterleitung.Prelude.{
  ℕ, ◌+◌, ◌-◌, not, ltb, if◌then◌else◌, is_empty, List, [], ◌∷◌, ◌++◌, take, drop, Option, none,
  some, Result, ok, err,
}
use weiterleitung.Text.{Text, lit, Unicode, eq_ignore_ascii_case, find_char}
use weiterleitung.Text.Trim.{trim, trim_start_matches, trim_end_matches}
use weiterleitung.Text.Split.{split_once}
use weiterleitung.Configuration.{AliasSettings, default_domain, owns_domain}
use weiterleitung.Domain.{forward, reply}
use weiterleitung.Domain.EmailAddress.{EmailAddress, parse, to_string, is_char}
use weiterleitung.Database.{World, AliasWithMailbox, ContactWithAlias}
use weiterleitung.Database.Exec.{Exec, pure, fail, lift, ◌>>=◌, ◌>>◌, map_err}
use weiterleitung.Alias.{find_alias_by_address, record_alias_activity, forwarded, replied, blocked}
use weiterleitung.Contact.{find_contact_by_reverse_alias, get_or_create_contact}
use weiterleitung.Delivery.Queue.{enqueue}
use weiterleitung.Smtp.Rewrite.{
  split_headers_body, header_value, rewrite_for_forward, rewrite_for_reply,
}
use weiterleitung.Smtp.Session.{Envelope, MailHandler, RecipientDecision, accept, reject}

pub data Route : Type 0 where
  to_mailbox : Text → Text → Route
  to_contact : Text → Text → Text → Route

pub record AliasRouter : Type 0 where
  pub aliases : AliasSettings
  pub mail_dir : Text

abbrev pub relay_denied : Text
relay_denied = lit "Relay access denied"

abbrev pub lookup_failure : Text
lookup_failure = lit "Temporary lookup failure"

abbrev pub alias_disabled : Text
alias_disabled = lit "Alias is disabled"

abbrev pub mailbox_only : Text
mailbox_only = lit "Reverse aliases only accept mail from their mailbox"

abbrev pub mapped : {A E F : Type 0} → (E → F) → Result E A → Result F A
mapped g (ok a) = ok a
mapped g (err e) = err (g e)

-- The branch of a reverse alias.
unfoldable pub route_reply : Text → ContactWithAlias → Exec Text Route
route_reply mail_from c =
    if not (eq_ignore_ascii_case c.mailbox_email (trim mail_from))
    then fail mailbox_only
    else if not c.alias_enabled
    then fail alias_disabled
    else pure (to_contact c.contact.contact_id c.alias_address c.contact.email)

-- `let _ = …`: the result of a handler is dropped, and its effect is kept.
unfoldable pub ignore : {A : Type 0} → Exec Text A → Exec Text (Unit {0})
ignore m w = (ok tt, (m w).1)

-- The branch of an alias, found or not.
unfoldable pub route_alias : EmailAddress → Option AliasWithMailbox → Exec Text Route
route_alias recipient none = fail (lit "No such alias: " ++ to_string recipient)
route_alias recipient (some a) =
    if not a.alias.enabled
    then (do ignore (record_alias_activity a.alias.alias_id blocked); fail alias_disabled)
    else pure (to_mailbox a.alias.alias_id a.alias.address)

unfoldable pub display_name_of : Option (Text × Text) → Option Text
display_name_of none = none
display_name_of (some (name, rest)) =
    let unquoted =
      trim (trim_end_matches (is_char b'"') (trim_start_matches (is_char b'"') (trim name))) in
    if not (is_empty unquoted) then some unquoted else none

-- The display name of a `From` header's value.
unfoldable pub display_name : Text → Option Text
unfolding display_name_of
display_name from_header = display_name_of (split_once b'<' from_header)

abbrev pub between : Text → Option ℕ → Option ℕ → Text
between header (some start) (some end) =
    if ltb start end then take (end - (start + 1)) (drop (start + 1) header) else header
between header _ _ = header

abbrev pub or_empty : Option Text → Text
or_empty none = []
or_empty (some s) = s

abbrev pub bind_name : Option Text → (Text → Option Text) → Option Text
bind_name none f = none
bind_name (some s) f = f s

module _ ⦃u : Unicode⦄ where
  abbrev pub sender_or :
      Result Text EmailAddress → Result Text EmailAddress → Result Text EmailAddress
  sender_or (ok address) other = ok address
  sender_or (err e) other = other

  -- The envelope sender, or else the address of the `From` header.
  unfoldable pub envelope_sender : Text → Option Text → Result Text EmailAddress
  envelope_sender mail_from from_header =
      let header = or_empty from_header in
      sender_or (parse mail_from)
        (parse (between header (find_char b'<' header) (find_char b'>' header)))

  abbrev pub or_alias :
      Text → EmailAddress → Option ContactWithAlias → Exec Text Route → Exec Text Route
  or_alias mail_from recipient (some c) other = route_reply mail_from c
  or_alias mail_from recipient none other = other

  -- `route` behind the test of the domain.
  unfoldable pub route_owned : Text → EmailAddress → Exec Text Route
  route_owned mail_from recipient = do
    contact ← map_err (λ e. lookup_failure) (find_contact_by_reverse_alias recipient)
    or_alias mail_from recipient contact (do
      alias ← map_err (λ e. lookup_failure) (find_alias_by_address recipient)
      route_alias recipient alias)

  unfoldable pub route : AliasRouter → Text → Text → Exec Text Route
  route r mail_from recipient = do
    address ←
        lift
          (mapped (λ e. lit "`" ++ (recipient ++ lit "` is not a valid address")) (parse recipient))
    if not (owns_domain r.aliases address.domain)
        then fail relay_denied
        else route_owned mail_from address

  abbrev pub or_vanished : Text → Option AliasWithMailbox → Exec Text AliasWithMailbox
  or_vanished alias none = fail (lit "Alias `" ++ (alias ++ lit "` vanished between RCPT and DATA"))
  or_vanished alias (some a) = pure a

  unfoldable pub forward_to_mailbox : AliasRouter → Text → Text → Envelope → Exec Text (Unit {0})
  forward_to_mailbox r alias_id alias envelope = do
    address ← lift (parse alias)
    found ← find_alias_by_address address
    target ← or_vanished alias found
    let headers = (split_headers_body envelope.payload).0
    let from_header = header_value headers (lit "from")
    sender_email ← lift (envelope_sender envelope.mail_from from_header)
    let sender_name = bind_name from_header display_name
    contact ←
        get_or_create_contact alias_id sender_email sender_name r.aliases.reverse_alias_prefix
          (default_domain r.aliases)
    enqueue r.mail_dir (record {
      direction = forward;
      envelope_from = contact.reverse_alias;
      envelope_to = target.mailbox_email;
      raw = rewrite_for_forward envelope.payload (record {
        alias = alias;
        reverse_alias = contact.reverse_alias;
        sender_name = sender_name;
        sender_email = to_string sender_email;
      });
      alias_id = some alias_id;
      contact_id = some contact.contact_id;
      subject = header_value headers (lit "subject");
    })
    record_alias_activity alias_id forwarded

  abbrev pub id_of : Option AliasWithMailbox → Option Text
  id_of none = none
  id_of (some a) = some a.alias.alias_id

  abbrev pub count_reply : Option Text → Exec Text (Unit {0})
  count_reply none = pure tt
  count_reply (some alias_id) = record_alias_activity alias_id replied

  unfoldable pub send_reply : AliasRouter → Text → Text → Text → Envelope → Exec Text (Unit {0})
  send_reply r contact_id alias contact_email envelope = do
    let headers = (split_headers_body envelope.payload).0
    address ← lift (parse alias)
    found ← find_alias_by_address address
    enqueue r.mail_dir (record {
      direction = reply;
      envelope_from = alias;
      envelope_to = contact_email;
      raw =
          rewrite_for_reply envelope.payload
            (record { alias = alias; contact_email = contact_email });
      alias_id = id_of found;
      contact_id = some contact_id;
      subject = header_value headers (lit "subject");
    })
    count_reply (id_of found)

  abbrev pub decision : Result Text Route × World → RecipientDecision × World
  decision (ok _, w) = (accept, w)
  decision (err reason, w) = (reject reason, w)

  unfoldable pub verify_recipient : AliasRouter → Text → Text → World → RecipientDecision × World
  verify_recipient r mail_from recipient w = decision (route r mail_from recipient w)

  abbrev pub dispatch : AliasRouter → Envelope → Route → Exec Text (Unit {0})
  dispatch r envelope (to_mailbox alias_id alias) = forward_to_mailbox r alias_id alias envelope
  dispatch r envelope (to_contact contact_id alias contact_email) =
      send_reply r contact_id alias contact_email envelope

  abbrev pub not_routable : Text → Text → Text
  not_routable recipient reason =
      lit "Recipient `" ++ (recipient ++ (lit "` is no longer routable: " ++ reason))

  -- The round of one recipient.
  unfoldable pub handle_one : AliasRouter → Envelope → Text → Exec Text (Unit {0})
  handle_one r envelope recipient = do
    target ← map_err (not_routable recipient) (route r envelope.mail_from recipient)
    map_err (λ e. lit "Failed to queue the message") (dispatch r envelope target)

  unfoldable pub handle_all : AliasRouter → Envelope → List Text → Exec Text (Unit {0})
  handle_all r envelope [] = pure tt
  handle_all r envelope (recipient ∷ rest) = do
    handle_one r envelope recipient
    handle_all r envelope rest

  unfoldable pub handle : AliasRouter → Envelope → Exec Text (Unit {0})
  handle r envelope = handle_all r envelope envelope.rcpt_to

  -- The implementation of `MailHandler`.
  unfoldable pub mail_handler : AliasRouter → MailHandler World
  mail_handler r = record { verify_recipient = verify_recipient r; handle = handle r }
