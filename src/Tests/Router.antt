-- ===== src/Tests/Router.antt =====
-- Routing, and the mail that is queued.
use weiterleitung.Prelude.{
  ℕ, ◌+◌, ◌≡◌, refl, List, [], ◌∷◌, ◌++◌, length, Option, none, some, Result, ok, err, Bool, true,
  false,
}
use weiterleitung.Text.{Text, lit}
use weiterleitung.Database.{Db, World}
use weiterleitung.Smtp.Session.{accept, reject}
use weiterleitung.Smtp.Router.{
  Route, to_mailbox, to_contact, route, verify_recipient, handle_one, handle,
}
use weiterleitung.Smtp.Router.Authority.{IsAuthorised, route-IsAuthorised}
use weiterleitung.Smtp.Router.Quiet.{NoMail, verify_recipient-NoMail}
use weiterleitung.Smtp.Router.Queued.{
  IsDispatched, AllDispatched, handle_one-IsDispatched, handle-AllDispatched,
}
use weiterleitung.Smtp.Rewrite.{stripped_headers, strip_headers, header_value}
use weiterleitung.Smtp.Rewrite.{ReplyRewrite, rewrite_for_reply, split_headers_body, crlf}
use weiterleitung.Text.{Bytes, eq_text, is_ascii, to_ascii_lowercase}
use weiterleitung.Prelude.{In, head, later, all, map}
use weiterleitung.Tests.Fixture.{ascii, router, world, incoming, outgoing}

abbrev stranger : Text
stranger = lit "eve@e.org"

route-shop :
    route router stranger (lit "Shop@x.io") world
    ≡ (ok (to_mailbox (lit "a1") (lit "shop@x.io")), world)
unfolding route weiterleitung.Database.Exec.◌>>=◌ weiterleitung.Database.Exec.lift
    weiterleitung.Domain.EmailAddress.parse weiterleitung.Text.Split.rsplit_once
    weiterleitung.Domain.EmailAddress.bare weiterleitung.Text.Trim.trim_end_matches
    weiterleitung.Text.Trim.trim_start_matches weiterleitung.Text.Trim.trim
    weiterleitung.Domain.EmailAddress.valid_local weiterleitung.Domain.EmailAddress.valid_domain
    weiterleitung.Text.to_ascii_lowercase weiterleitung.Configuration.owns_domain
    weiterleitung.Text.eq_ignore_ascii_case weiterleitung.Smtp.Router.route_owned
    weiterleitung.Database.Exec.map_err weiterleitung.Contact.find_contact_by_reverse_alias
    weiterleitung.Alias.alias_at weiterleitung.Alias.bump weiterleitung.Alias.find_alias_by_address
    weiterleitung.Alias.join_mailbox weiterleitung.Alias.record_alias_activity
    weiterleitung.Alias.update_alias weiterleitung.Contact.contact_at
    weiterleitung.Contact.join_alias weiterleitung.Database.Exec.attempt
    weiterleitung.Database.Exec.execute weiterleitung.Database.Exec.fail
    weiterleitung.Database.Exec.gets weiterleitung.Database.Exec.now
    weiterleitung.Database.Exec.pure weiterleitung.Database.Exec.select
    weiterleitung.Domain.EmailAddress.normalised weiterleitung.Domain.EmailAddress.parse_parts
    weiterleitung.Domain.EmailAddress.to_string weiterleitung.Prelude.all weiterleitung.Prelude.any
    weiterleitung.Prelude.find weiterleitung.Smtp.Router.ignore
    weiterleitung.Smtp.Router.route_alias weiterleitung.Smtp.Router.route_reply
    weiterleitung.Text.byte_len weiterleitung.Text.contains_char weiterleitung.Text.contains_twice
    weiterleitung.Text.eq_text weiterleitung.Text.is_ascii_alphanumeric
    weiterleitung.Text.is_whitespace weiterleitung.Text.len_utf8 weiterleitung.Text.starts_with_char
route-shop = refl

route-IsAuthorised_example :
    IsAuthorised router world.db stranger
      (lit "Shop@x.io")
      (to_mailbox (lit "a1") (lit "shop@x.io"))
    × (world.db ≡ world.db)
    × (world.spool ≡ world.spool)
route-IsAuthorised_example = route-IsAuthorised router stranger (lit "Shop@x.io") world route-shop

verify-shop : verify_recipient router stranger (lit "Shop@x.io") world ≡ (accept, world)
unfolding verify_recipient route weiterleitung.Database.Exec.◌>>=◌ weiterleitung.Database.Exec.lift
    weiterleitung.Domain.EmailAddress.parse weiterleitung.Text.Split.rsplit_once
    weiterleitung.Domain.EmailAddress.bare weiterleitung.Text.Trim.trim_end_matches
    weiterleitung.Text.Trim.trim_start_matches weiterleitung.Text.Trim.trim
    weiterleitung.Domain.EmailAddress.valid_local weiterleitung.Domain.EmailAddress.valid_domain
    weiterleitung.Text.to_ascii_lowercase weiterleitung.Configuration.owns_domain
    weiterleitung.Text.eq_ignore_ascii_case weiterleitung.Smtp.Router.route_owned
    weiterleitung.Database.Exec.map_err weiterleitung.Alias.alias_at weiterleitung.Alias.bump
    weiterleitung.Alias.find_alias_by_address weiterleitung.Alias.join_mailbox
    weiterleitung.Alias.record_alias_activity weiterleitung.Alias.update_alias
    weiterleitung.Contact.contact_at weiterleitung.Contact.find_contact_by_reverse_alias
    weiterleitung.Contact.join_alias weiterleitung.Database.Exec.attempt
    weiterleitung.Database.Exec.execute weiterleitung.Database.Exec.fail
    weiterleitung.Database.Exec.gets weiterleitung.Database.Exec.now
    weiterleitung.Database.Exec.pure weiterleitung.Database.Exec.select
    weiterleitung.Domain.EmailAddress.normalised weiterleitung.Domain.EmailAddress.parse_parts
    weiterleitung.Domain.EmailAddress.to_string weiterleitung.Prelude.all weiterleitung.Prelude.any
    weiterleitung.Prelude.find weiterleitung.Smtp.Router.ignore
    weiterleitung.Smtp.Router.route_alias weiterleitung.Smtp.Router.route_reply
    weiterleitung.Text.byte_len weiterleitung.Text.contains_char weiterleitung.Text.contains_twice
    weiterleitung.Text.eq_text weiterleitung.Text.is_ascii_alphanumeric
    weiterleitung.Text.is_whitespace weiterleitung.Text.len_utf8 weiterleitung.Text.starts_with_char
verify-shop = refl

-- The mailbox may write to the contact, and a stranger may not.
verify-contact :
    verify_recipient router (lit "ME@home.org") (lit "r.t@x.io") world ≡ (accept, world)
unfolding verify_recipient route weiterleitung.Database.Exec.◌>>=◌ weiterleitung.Database.Exec.lift
    weiterleitung.Domain.EmailAddress.parse weiterleitung.Text.Split.rsplit_once
    weiterleitung.Domain.EmailAddress.bare weiterleitung.Text.Trim.trim_end_matches
    weiterleitung.Text.Trim.trim_start_matches weiterleitung.Text.Trim.trim
    weiterleitung.Domain.EmailAddress.valid_local weiterleitung.Domain.EmailAddress.valid_domain
    weiterleitung.Text.to_ascii_lowercase weiterleitung.Configuration.owns_domain
    weiterleitung.Text.eq_ignore_ascii_case weiterleitung.Smtp.Router.route_owned
    weiterleitung.Database.Exec.map_err weiterleitung.Alias.alias_at weiterleitung.Alias.bump
    weiterleitung.Alias.find_alias_by_address weiterleitung.Alias.join_mailbox
    weiterleitung.Alias.record_alias_activity weiterleitung.Alias.update_alias
    weiterleitung.Contact.contact_at weiterleitung.Contact.find_contact_by_reverse_alias
    weiterleitung.Contact.join_alias weiterleitung.Database.Exec.attempt
    weiterleitung.Database.Exec.execute weiterleitung.Database.Exec.fail
    weiterleitung.Database.Exec.gets weiterleitung.Database.Exec.now
    weiterleitung.Database.Exec.pure weiterleitung.Database.Exec.select
    weiterleitung.Domain.EmailAddress.normalised weiterleitung.Domain.EmailAddress.parse_parts
    weiterleitung.Domain.EmailAddress.to_string weiterleitung.Prelude.all weiterleitung.Prelude.any
    weiterleitung.Prelude.find weiterleitung.Smtp.Router.ignore
    weiterleitung.Smtp.Router.route_alias weiterleitung.Smtp.Router.route_reply
    weiterleitung.Text.byte_len weiterleitung.Text.contains_char weiterleitung.Text.contains_twice
    weiterleitung.Text.eq_text weiterleitung.Text.is_ascii_alphanumeric
    weiterleitung.Text.is_whitespace weiterleitung.Text.len_utf8 weiterleitung.Text.starts_with_char
verify-contact = refl

verify-contact_stranger :
    verify_recipient router stranger (lit "r.t@x.io") world
    ≡ (reject (lit "Reverse aliases only accept mail from their mailbox"), world)
unfolding verify_recipient route weiterleitung.Database.Exec.◌>>=◌ weiterleitung.Database.Exec.lift
    weiterleitung.Domain.EmailAddress.parse weiterleitung.Text.Split.rsplit_once
    weiterleitung.Domain.EmailAddress.bare weiterleitung.Text.Trim.trim_end_matches
    weiterleitung.Text.Trim.trim_start_matches weiterleitung.Text.Trim.trim
    weiterleitung.Domain.EmailAddress.valid_local weiterleitung.Domain.EmailAddress.valid_domain
    weiterleitung.Text.to_ascii_lowercase weiterleitung.Configuration.owns_domain
    weiterleitung.Text.eq_ignore_ascii_case weiterleitung.Smtp.Router.route_owned
    weiterleitung.Database.Exec.map_err weiterleitung.Alias.alias_at weiterleitung.Alias.bump
    weiterleitung.Alias.find_alias_by_address weiterleitung.Alias.join_mailbox
    weiterleitung.Alias.record_alias_activity weiterleitung.Alias.update_alias
    weiterleitung.Contact.contact_at weiterleitung.Contact.find_contact_by_reverse_alias
    weiterleitung.Contact.join_alias weiterleitung.Database.Exec.attempt
    weiterleitung.Database.Exec.execute weiterleitung.Database.Exec.fail
    weiterleitung.Database.Exec.gets weiterleitung.Database.Exec.now
    weiterleitung.Database.Exec.pure weiterleitung.Database.Exec.select
    weiterleitung.Domain.EmailAddress.normalised weiterleitung.Domain.EmailAddress.parse_parts
    weiterleitung.Domain.EmailAddress.to_string weiterleitung.Prelude.all weiterleitung.Prelude.any
    weiterleitung.Prelude.find weiterleitung.Smtp.Router.ignore
    weiterleitung.Smtp.Router.route_alias weiterleitung.Smtp.Router.route_reply
    weiterleitung.Text.byte_len weiterleitung.Text.contains_char weiterleitung.Text.contains_twice
    weiterleitung.Text.eq_text weiterleitung.Text.is_ascii_alphanumeric
    weiterleitung.Text.is_whitespace weiterleitung.Text.len_utf8 weiterleitung.Text.starts_with_char
verify-contact_stranger = refl

verify-relay :
    verify_recipient router stranger (lit "a@y.io") world
    ≡ (reject (lit "Relay access denied"), world)
unfolding verify_recipient route weiterleitung.Database.Exec.◌>>=◌ weiterleitung.Database.Exec.lift
    weiterleitung.Domain.EmailAddress.parse weiterleitung.Text.Split.rsplit_once
    weiterleitung.Domain.EmailAddress.bare weiterleitung.Text.Trim.trim_end_matches
    weiterleitung.Text.Trim.trim_start_matches weiterleitung.Text.Trim.trim
    weiterleitung.Domain.EmailAddress.valid_local weiterleitung.Domain.EmailAddress.valid_domain
    weiterleitung.Text.to_ascii_lowercase weiterleitung.Configuration.owns_domain
    weiterleitung.Text.eq_ignore_ascii_case weiterleitung.Database.Exec.fail
verify-relay = refl

verify-old :
    (verify_recipient router stranger (lit "old@x.io") world).0 ≡ reject (lit "Alias is disabled")
unfolding verify_recipient route weiterleitung.Database.Exec.◌>>=◌ weiterleitung.Database.Exec.lift
    weiterleitung.Domain.EmailAddress.parse weiterleitung.Text.Split.rsplit_once
    weiterleitung.Domain.EmailAddress.bare weiterleitung.Text.Trim.trim_end_matches
    weiterleitung.Text.Trim.trim_start_matches weiterleitung.Text.Trim.trim
    weiterleitung.Domain.EmailAddress.valid_local weiterleitung.Domain.EmailAddress.valid_domain
    weiterleitung.Text.to_ascii_lowercase weiterleitung.Configuration.owns_domain
    weiterleitung.Text.eq_ignore_ascii_case weiterleitung.Smtp.Router.route_owned
    weiterleitung.Database.Exec.map_err weiterleitung.Alias.alias_at weiterleitung.Alias.bump
    weiterleitung.Alias.find_alias_by_address weiterleitung.Alias.join_mailbox
    weiterleitung.Alias.record_alias_activity weiterleitung.Alias.update_alias
    weiterleitung.Contact.contact_at weiterleitung.Contact.find_contact_by_reverse_alias
    weiterleitung.Contact.join_alias weiterleitung.Database.Exec.attempt
    weiterleitung.Database.Exec.execute weiterleitung.Database.Exec.fail
    weiterleitung.Database.Exec.gets weiterleitung.Database.Exec.now
    weiterleitung.Database.Exec.pure weiterleitung.Database.Exec.select
    weiterleitung.Domain.EmailAddress.normalised weiterleitung.Domain.EmailAddress.parse_parts
    weiterleitung.Domain.EmailAddress.to_string weiterleitung.Prelude.all weiterleitung.Prelude.any
    weiterleitung.Prelude.find weiterleitung.Smtp.Router.ignore
    weiterleitung.Smtp.Router.route_alias weiterleitung.Smtp.Router.route_reply
    weiterleitung.Text.byte_len weiterleitung.Text.contains_char weiterleitung.Text.contains_twice
    weiterleitung.Text.eq_text weiterleitung.Text.is_ascii_alphanumeric
    weiterleitung.Text.is_whitespace weiterleitung.Text.len_utf8 weiterleitung.Text.starts_with_char
verify-old = refl

verify_recipient-NoMail_example :
    NoMail world (verify_recipient router stranger (lit "old@x.io") world).1
verify_recipient-NoMail_example = verify_recipient-NoMail router stranger (lit "old@x.io") world

abbrev after_reply : World
after_reply = (handle_one router outgoing (lit "r.t@x.io") world).1

reply-ok : handle_one router outgoing (lit "r.t@x.io") world ≡ (ok tt, after_reply)
unfolding handle_one weiterleitung.Database.Exec.◌>>=◌ weiterleitung.Database.Exec.map_err route
    weiterleitung.Database.Exec.lift weiterleitung.Domain.EmailAddress.parse
    weiterleitung.Text.Split.rsplit_once weiterleitung.Domain.EmailAddress.bare
    weiterleitung.Text.Trim.trim_end_matches weiterleitung.Text.Trim.trim_start_matches
    weiterleitung.Text.Trim.trim weiterleitung.Domain.EmailAddress.valid_local
    weiterleitung.Domain.EmailAddress.valid_domain weiterleitung.Text.to_ascii_lowercase
    weiterleitung.Configuration.owns_domain weiterleitung.Text.eq_ignore_ascii_case
    weiterleitung.Smtp.Router.route_owned weiterleitung.Contact.find_contact_by_reverse_alias
    weiterleitung.Database.Exec.select weiterleitung.Contact.contact_at
    weiterleitung.Domain.EmailAddress.normalised weiterleitung.Smtp.Router.route_reply
    weiterleitung.Database.Exec.pure weiterleitung.Smtp.Router.send_reply
    weiterleitung.Alias.find_alias_by_address weiterleitung.Delivery.Queue.enqueue
    weiterleitung.Database.Exec.new_uuid weiterleitung.Delivery.Queue.write_file
    weiterleitung.Database.Exec.now weiterleitung.Database.Exec.execute
    weiterleitung.Delivery.Queue.insert_row weiterleitung.Alias.alias_at
    weiterleitung.Alias.record_alias_activity
reply-ok = refl

handle_one-IsDispatched_example : IsDispatched router outgoing (lit "r.t@x.io") world after_reply
handle_one-IsDispatched_example =
    handle_one-IsDispatched router outgoing (lit "r.t@x.io") world reply-ok

abbrev after_mail : World
after_mail = (handle router incoming world).1

mail-ok : handle router incoming world ≡ (ok tt, after_mail)
unfolding handle weiterleitung.Smtp.Router.handle_all weiterleitung.Database.Exec.◌>>=◌ handle_one
    weiterleitung.Database.Exec.map_err route weiterleitung.Database.Exec.lift
    weiterleitung.Domain.EmailAddress.parse weiterleitung.Text.Split.rsplit_once
    weiterleitung.Domain.EmailAddress.bare weiterleitung.Text.Trim.trim_end_matches
    weiterleitung.Text.Trim.trim_start_matches weiterleitung.Text.Trim.trim
    weiterleitung.Domain.EmailAddress.valid_local weiterleitung.Domain.EmailAddress.valid_domain
    weiterleitung.Text.to_ascii_lowercase weiterleitung.Configuration.owns_domain
    weiterleitung.Text.eq_ignore_ascii_case weiterleitung.Smtp.Router.route_owned
    weiterleitung.Contact.find_contact_by_reverse_alias weiterleitung.Database.Exec.select
    weiterleitung.Contact.contact_at weiterleitung.Domain.EmailAddress.normalised
    weiterleitung.Alias.find_alias_by_address weiterleitung.Smtp.Router.route_alias
    weiterleitung.Alias.alias_at weiterleitung.Database.Exec.pure
    weiterleitung.Smtp.Router.forward_to_mailbox weiterleitung.Smtp.Router.envelope_sender
    weiterleitung.Contact.get_or_create_contact weiterleitung.Contact.find_contact
    weiterleitung.Contact.create_contact weiterleitung.Database.Exec.new_uuid
    weiterleitung.Alias.Generator.random_token weiterleitung.Alias.bump
    weiterleitung.Alias.join_mailbox weiterleitung.Alias.record_alias_activity
    weiterleitung.Alias.update_alias weiterleitung.Configuration.default_domain
    weiterleitung.Contact.insert_row weiterleitung.Contact.join_alias
    weiterleitung.Database.Exec.attempt weiterleitung.Database.Exec.draw_byte
    weiterleitung.Database.Exec.execute weiterleitung.Database.Exec.fail
    weiterleitung.Database.Exec.gets weiterleitung.Database.Exec.now
    weiterleitung.Delivery.Queue.enqueue weiterleitung.Delivery.Queue.insert_row
    weiterleitung.Delivery.Queue.write_file weiterleitung.Domain.EmailAddress.parse_parts
    weiterleitung.Domain.EmailAddress.to_string weiterleitung.Domain.as_str
    weiterleitung.Prelude.all weiterleitung.Prelude.any weiterleitung.Prelude.find
    weiterleitung.Smtp.Rewrite.display_of weiterleitung.Smtp.Rewrite.drops
    weiterleitung.Smtp.Rewrite.escaped weiterleitung.Smtp.Rewrite.field_name
    weiterleitung.Smtp.Rewrite.find_subsequence weiterleitung.Smtp.Rewrite.forward_head
    weiterleitung.Smtp.Rewrite.header_value weiterleitung.Smtp.Rewrite.is_continuation
    weiterleitung.Smtp.Rewrite.quoted_address weiterleitung.Smtp.Rewrite.reply_head
    weiterleitung.Smtp.Rewrite.rewrite_for_forward weiterleitung.Smtp.Rewrite.rewrite_for_reply
    weiterleitung.Smtp.Rewrite.split_headers_body weiterleitung.Smtp.Rewrite.starts_with
    weiterleitung.Smtp.Rewrite.strip_headers weiterleitung.Smtp.Rewrite.strip_lines
    weiterleitung.Smtp.Rewrite.value_of weiterleitung.Smtp.Router.display_name
    weiterleitung.Smtp.Router.display_name_of weiterleitung.Smtp.Router.ignore
    weiterleitung.Smtp.Router.route_reply weiterleitung.Smtp.Router.send_reply
    weiterleitung.Text.Split.split_inclusive weiterleitung.Text.Split.split_once
    weiterleitung.Text.Utf8.decode weiterleitung.Text.Utf8.encode
    weiterleitung.Text.Utf8.encode_char weiterleitung.Text.Utf8.feed
    weiterleitung.Text.Utf8.feed_first weiterleitung.Text.Utf8.from_utf8_lossy
    weiterleitung.Text.byte_len weiterleitung.Text.contains_char weiterleitung.Text.contains_twice
    weiterleitung.Text.eq_text weiterleitung.Text.find_char weiterleitung.Text.is_ascii_alphanumeric
    weiterleitung.Text.is_whitespace weiterleitung.Text.len_utf8 weiterleitung.Text.replace_char
    weiterleitung.Text.starts_with_char
mail-ok = refl

handle-AllDispatched_example :
    AllDispatched router incoming incoming.rcpt_to world after_mail
    × (length after_mail.db.outbox ≡ length world.db.outbox + length incoming.rcpt_to)
handle-AllDispatched_example = handle-AllDispatched router incoming world mail-ok
