-- ===== src/Tests/Session.antt =====
-- Conversations.
use weiterleitung.Prelude.{
  ◌≡◌, ◌≤◌, refl, List, [], ◌∷◌, ◌++◌, length, All, Option, none, some, ok, inl, inr, Bool-cases,
}
use weiterleitung.Text.{Text, Bytes, lit, eq_text, eq_text_iff}
use weiterleitung.Smtp.Session.{
  Envelope, Session, RecipientDecision, accept, reject, read_data, handle_session,
}
use weiterleitung.Smtp.Session.Payload.{
  sent_lines, message, limited, read_data-sent_lines, read_data-bound,
}
use weiterleitung.Smtp.Session.Invariant.{IsDeliverable, IsOrderly, handle_session-IsOrderly}
use weiterleitung.Tests.Fixture.{lines, shop, recorder, config}

abbrev two_lines : List Bytes
two_lines = lit ".a" ∷ lit "b" ∷ []

read_data-sent_lines_example :
    read_data 20 (sent_lines two_lines ++ (lit "QUIT" ∷ []))
    ≡ (limited 20 (message two_lines), lit "QUIT" ∷ [])
read_data-sent_lines_example = read_data-sent_lines 20 two_lines (lit "QUIT" ∷ [])

abbrev body : Bytes
body = lines (".a" ∷ "b" ∷ [])

read-body : (read_data 20 (sent_lines two_lines)).0 ≡ ok body
unfolding read_data weiterleitung.Smtp.Session.read_lines eq_text
    weiterleitung.Smtp.Session.strip_eol weiterleitung.Smtp.Session.absorb
    weiterleitung.Smtp.Session.unstuff
read-body = refl

read_data-bound_example : length body ≤ 20
read_data-bound_example = read_data-bound 20 (sent_lines two_lines) read-body

abbrev stream : Bytes
stream = lines (
    "MAIL FROM:<a@b.c>" ∷ "EHLO me" ∷ "mail from: <a@b.c> SIZE=3" ∷ "RCPT TO:<no@x.io>"
    ∷ "RCPT TO:<shop@x.io>" ∷ "DATA" ∷ "..a" ∷ "b" ∷ "." ∷ "DATA" ∷ "QUIT" ∷ "NOOP" ∷ [])

abbrev replies_of : Option (Session (List Envelope)) → List Text
replies_of none = []
replies_of (some s) = s.replies

abbrev world_of : Option (Session (List Envelope)) → List Envelope
world_of none = []
world_of (some s) = s.world

transcript :
    replies_of (handle_session recorder config [] stream)
    ≡ lit "220 mx ESMTP weiterleitung"
      ∷ lit "503 Bad sequence of commands"
      ∷ lit "250-mx greets you"
      ∷ lit "250-SIZE 20"
      ∷ lit "250-8BITMIME"
      ∷ lit "250 SMTPUTF8"
      ∷ lit "250 2.1.0 Sender ok"
      ∷ lit "550 5.1.1 No such alias"
      ∷ lit "250 2.1.5 Recipient ok"
      ∷ lit "354 End data with <CR><LF>.<CR><LF>"
      ∷ lit "250 2.0.0 Message accepted"
      ∷ lit "503 5.5.1 Need RCPT before DATA"
      ∷ lit "221 2.0.0 Bye"
      ∷ []
unfolding handle_session weiterleitung.Smtp.Session.run weiterleitung.Text.Split.split_inclusive
    weiterleitung.Smtp.Session.turn weiterleitung.Smtp.Session.run_line
    weiterleitung.Text.Utf8.from_utf8 weiterleitung.Smtp.Session.run_verb
    weiterleitung.Smtp.Session.classify weiterleitung.Smtp.Session.split_command
    weiterleitung.Text.Split.split_once weiterleitung.Text.Trim.trim_end_matches
    weiterleitung.Text.to_ascii_uppercase weiterleitung.Smtp.Session.parse_address_argument
    weiterleitung.Text.byte_len weiterleitung.Text.Trim.trim weiterleitung.Text.eq_ignore_ascii_case
    weiterleitung.Text.find_char weiterleitung.Smtp.Session.absorb
    weiterleitung.Smtp.Session.decimal read_data weiterleitung.Smtp.Session.read_lines
    weiterleitung.Smtp.Session.size_text weiterleitung.Smtp.Session.strip_eol
    weiterleitung.Smtp.Session.strip_suffix weiterleitung.Smtp.Session.unstuff
    weiterleitung.Text.Trim.first_word weiterleitung.Text.Trim.take_until
    weiterleitung.Text.Trim.trim_start_matches weiterleitung.Text.Utf8.decode
    weiterleitung.Text.Utf8.feed weiterleitung.Text.Utf8.feed_first
    weiterleitung.Text.Utf8.from_utf8_lossy weiterleitung.Text.Utf8.is_utf8 eq_text
    weiterleitung.Text.is_whitespace weiterleitung.Text.len_utf8
    weiterleitung.Text.strip_prefix_char weiterleitung.Text.to_ascii_lowercase
transcript = refl

handed_over :
    world_of (handle_session recorder config [] stream)
    ≡ record { mail_from = lit "a@b.c"; rcpt_to = shop ∷ []; payload = body } ∷ []
unfolding handle_session weiterleitung.Smtp.Session.run weiterleitung.Text.Split.split_inclusive
    weiterleitung.Smtp.Session.turn weiterleitung.Smtp.Session.run_line
    weiterleitung.Text.Utf8.from_utf8 weiterleitung.Smtp.Session.run_verb
    weiterleitung.Smtp.Session.classify weiterleitung.Smtp.Session.split_command
    weiterleitung.Text.Split.split_once weiterleitung.Text.Trim.trim_end_matches
    weiterleitung.Text.to_ascii_uppercase weiterleitung.Smtp.Session.parse_address_argument
    weiterleitung.Text.byte_len weiterleitung.Text.Trim.trim weiterleitung.Text.eq_ignore_ascii_case
    weiterleitung.Text.find_char weiterleitung.Smtp.Session.absorb
    weiterleitung.Smtp.Session.decimal read_data weiterleitung.Smtp.Session.read_lines
    weiterleitung.Smtp.Session.size_text weiterleitung.Smtp.Session.strip_eol
    weiterleitung.Smtp.Session.strip_suffix weiterleitung.Smtp.Session.unstuff
    weiterleitung.Text.Trim.first_word weiterleitung.Text.Trim.take_until
    weiterleitung.Text.Trim.trim_start_matches weiterleitung.Text.Utf8.decode
    weiterleitung.Text.Utf8.feed weiterleitung.Text.Utf8.feed_first
    weiterleitung.Text.Utf8.from_utf8_lossy weiterleitung.Text.Utf8.is_utf8 eq_text
    weiterleitung.Text.is_whitespace weiterleitung.Text.len_utf8
    weiterleitung.Text.strip_prefix_char weiterleitung.Text.to_ascii_lowercase
handed_over = refl

abbrev IsShop : Text → Text → Type 0
IsShop from to = to ≡ shop

abbrev AllDeliverable : List Envelope → Type 0
AllDeliverable w = All (IsDeliverable 20 IsShop) w

promise :
    (from to : Text) (w : List Envelope)
    → AllDeliverable w
    → (recorder.verify_recipient from to w).0 ≡ accept
    → to ≡ shop
promise from to w i h = elim (Bool-cases (eq_text to shop)) [
  | inl e ↦ (eq_text_iff to shop).0 e
  | inr e ↦ let k : reject (lit "No such alias") ≡ accept = rw e at h in cc
]

handle_session-IsOrderly_example :
    (s : Session (List Envelope)) × (handle_session recorder config [] stream ≡ some s)
    × IsOrderly IsShop s
    × AllDeliverable s.world
handle_session-IsOrderly_example =
    handle_session-IsOrderly recorder config IsShop AllDeliverable promise (λ from to w i. i)
      (λ e w d i. (d, i)) [] stream tt
