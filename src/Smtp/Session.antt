-- ===== src/Smtp/Session.antt =====
-- src/smtp/session.rs: the conversation of one connection. What the client sends is the list of
-- its lines, each with its line feed, as `read_line` and `read_until` return them; what the server
-- writes is the list of the lines written. A write that fails ends the conversation early, with a
-- prefix of these lines.
pub mod Payload
pub mod Invariant
pub mod Loop
use weiterleitung.Prelude.{
  ℕ, zero, suc, ◌+◌, ◌-◌, ◌/◌, ◌%◌, drop, Bool, true, false, not, ◌||◌, ◌==◌, ltb, leb,
  if◌then◌else◌, is_empty, length, List, [], ◌∷◌, ◌++◌, map, take, Option, none, some, Result, ok,
  err,
}
use weiterleitung.Text.{
  Text, Bytes, lit, eq_text, eq_ignore_ascii_case, to_ascii_uppercase, byte_len, find_char,
  strip_prefix_char,
}
use weiterleitung.Text.Trim.{trim, trim_end_matches, first_word}
use weiterleitung.Text.Split.{split_once, split_inclusive}
use weiterleitung.Text.Utf8.{from_utf8}

pub record Envelope : Type 0 where
  pub mail_from : Text
  pub rcpt_to : List Text
  pub payload : Bytes

abbrev pub empty_envelope : Envelope
empty_envelope = record { mail_from = []; rcpt_to = []; payload = [] }

pub data RecipientDecision : Type 0 where
  accept : RecipientDecision
  reject : Text → RecipientDecision

-- The trait `MailHandler`, over the state `W` that the handler works on.
pub record MailHandler (W : Type 0) : Type 0 where
  pub verify_recipient : Text → Text → W → RecipientDecision × W
  pub handle : Envelope → W → Result Text (Unit {0}) × W

pub record SessionConfig : Type 0 where
  pub hostname : Text
  pub max_message_size : ℕ

abbrev pub max_recipients : ℕ
max_recipients = 50

abbrev pub max_line_length : ℕ
max_line_length = 4096

abbrev pub is_cr_or_lf : ℕ → Bool
is_cr_or_lf c = c == b'\r' || c == b'\n'

abbrev pub angle_address : Text → Option ℕ → Option Text
angle_address value none = some (first_word value)
angle_address value (some end) = elim (strip_prefix_char b'<' value) [
  | none ↦ none
  | some s ↦ some (take (end - 1) s)
]

abbrev pub trimmed : Option Text → Option Text
trimmed none = none
trimmed (some s) = some (trim s)

abbrev pub argument_of : Text → Option (Text × Text) → Option Text
argument_of keyword none = none
argument_of keyword (some (candidate, value)) =
    if not (eq_ignore_ascii_case (trim candidate) keyword)
    then none
    else trimmed (angle_address (trim value) (find_char b'>' (trim value)))

unfoldable pub parse_address_argument : Text → Text → Option Text
parse_address_argument rest keyword =
    if ltb max_line_length (byte_len rest)
    then none
    else argument_of keyword (split_once b':' (trim rest))

unfoldable pub strip_suffix : ℕ → Bytes → Bytes
strip_suffix d [] = []
strip_suffix d (c ∷ []) = if c == d then [] else c ∷ []
strip_suffix d (c ∷ e ∷ s) = c ∷ strip_suffix d (e ∷ s)

unfoldable pub strip_eol : Bytes → Bytes
unfolding strip_suffix
strip_eol line = strip_suffix b'\r' (strip_suffix b'\n' line)

abbrev pub or_else : Bytes → Option Bytes → Bytes
or_else s none = s
or_else s (some t) = t

unfoldable pub unstuff : Bytes → Bytes
unfolding strip_prefix_char
unstuff content = or_else content (strip_prefix_char b'.' content)

abbrev pub crlf : Bytes
crlf = b'\r' ∷ b'\n' ∷ []

-- One line of the payload, with the message read so far and whether it is too large.
unfoldable pub absorb : ℕ → Bytes × Bool → Bytes → Bytes × Bool
absorb max (body, true) content = (body, true)
absorb max (body, false) content =
    if ltb max (length body + length (unstuff content) + 2)
    then (body, true)
    else (body ++ (unstuff content ++ crlf), false)

abbrev pub too_large_reply : Text
too_large_reply = lit "552 5.3.4 Message too large"

abbrev pub verdict : Bytes × Bool → Result Text Bytes
verdict (body, true) = err too_large_reply
verdict (body, false) = ok body

abbrev pub closed_reply : Text
closed_reply = lit "421 4.4.2 Connection closed during DATA"

-- The loop of `read_data`, with the lines that are left.
unfoldable pub read_lines : ℕ → Bytes × Bool → List Bytes → Result Text Bytes × List Bytes
read_lines max s [] = (err closed_reply, [])
read_lines max s (line ∷ rest) =
    let more = read_lines max (absorb max s (strip_eol line)) rest in
    if eq_text (strip_eol line) (b'.' ∷ []) then (verdict s, rest) else more

unfoldable pub read_data : ℕ → List Bytes → Result Text Bytes × List Bytes
read_data max = read_lines max ([], false)

-- The state of the loop. `world` is the handler's, `pending` the lines not yet read.
pub record Session (W : Type 0) : Type 0 where
  pub greeted : Bool
  pub have_sender : Bool
  pub envelope : Envelope
  pub pending : List Bytes
  pub replies : List Text
  pub world : W

module _ {W : Type 0} where
  abbrev pub say : Text → Session W → Session W
  say line s = record s { replies = s.replies ++ (line ∷ []) }

  abbrev pub reset : Session W → Session W
  reset s = record s { have_sender = false; envelope = empty_envelope }

-- The last `fuel` decimal digits, with a zero in front where the number has fewer.
unfoldable pub decimal : ℕ → ℕ → Text
decimal zero n = []
decimal (suc fuel) n =
    let front = decimal fuel (n / 10) in (if n == 0 then [] else front) ++ ((b'0' + n % 10) ∷ [])

-- A `usize` has at most twenty digits, and the zero in front of them is dropped.
unfoldable pub size_text : ℕ → Text
unfolding decimal
size_text n = if n == 0 then lit "0" else drop 1 (decimal 21 n)

-- The verbs that the loop tells apart; `vrfy` stands for `EXPN` too.
pub data Verb : Type 0 where
  ehlo helo mail rcpt payload rset noop vrfy starttls quit blank unknown : Verb

unfoldable pub classify : Text → Verb
unfolding eq_text
classify verb =
    if eq_text verb (lit "EHLO")
    then ehlo
    else if eq_text verb (lit "HELO")
    then helo
    else if eq_text verb (lit "MAIL")
    then mail
    else if eq_text verb (lit "RCPT")
    then rcpt
    else if eq_text verb (lit "DATA")
    then payload
    else if eq_text verb (lit "RSET")
    then rset
    else if eq_text verb (lit "NOOP")
    then noop
    else if eq_text verb (lit "VRFY") || eq_text verb (lit "EXPN")
    then vrfy
    else if eq_text verb (lit "STARTTLS")
    then starttls
    else if eq_text verb (lit "QUIT")
    then quit
    else if eq_text verb []
    then blank
    else unknown

abbrev pub halves : Text → Option (Text × Text) → Text × Text
halves command none = (map to_ascii_uppercase command, [])
halves command (some (verb, rest)) = (map to_ascii_uppercase verb, trim rest)

-- The verb, in upper case, and its argument.
unfoldable pub split_command : Text → Text × Text
split_command line =
    let command = trim_end_matches is_cr_or_lf line in halves command (split_once b' ' command)

-- The arm of `MAIL` behind its guard.
abbrev pub set_sender : {W : Type 0} → Option Text → Session W → Session W
set_sender none s = say (lit "501 5.5.4 Syntax: MAIL FROM:<address>") s
set_sender (some address) s = say (lit "250 2.1.0 Sender ok") (record s {
  have_sender = true;
  envelope = record { mail_from = address; rcpt_to = []; payload = [] };
})

abbrev pub decide : {W : Type 0} → Text → RecipientDecision × W → Session W → Session W
decide address (accept, w) s = say (lit "250 2.1.5 Recipient ok") (record s {
  envelope = record s.envelope { rcpt_to = s.envelope.rcpt_to ++ (address ∷ []) };
  world = w;
})
decide address (reject reason, w) s = say (lit "550 5.1.1 " ++ reason) (record s { world = w })

abbrev pub answer : Result Text (Unit {0}) → Text
answer (ok _) = lit "250 2.0.0 Message accepted"
answer (err reason) = lit "451 4.3.0 " ++ reason

module _ {W : Type 0} (handler : MailHandler W) where
  -- The arm of `RCPT` behind its guards.
  abbrev pub add_recipient : Option Text → Session W → Session W
  add_recipient none s = say (lit "501 5.5.4 Syntax: RCPT TO:<address>") s
  add_recipient (some address) s =
      decide address (handler.verify_recipient s.envelope.mail_from address s.world) s

  -- `handler.handle(std::mem::take(&mut envelope))` and its reply.
  abbrev pub submit : Envelope → Session W → Session W
  submit envelope s =
      let (result, w) = handler.handle envelope s.world in
      say (answer result) (record (reset s) { world = w })

  abbrev pub received : Result Text Bytes × List Bytes → Session W → Session W
  received (ok body, rest) s =
      submit (record s.envelope { payload = body }) (record s { pending = rest })
  received (err reply, rest) s = say reply (record (reset s) { pending = rest })

module _ {W : Type 0} (handler : MailHandler W) (config : SessionConfig) where
  -- The arms of the loop's `match`, with the argument of the command. The flag says whether the
  -- loop goes on.
  unfoldable pub run_verb : Verb → Text → Session W → Session W × Bool
  run_verb ehlo rest s = (
    say (lit "250 SMTPUTF8") (
        say (lit "250-8BITMIME") (
          say (lit "250-SIZE " ++ size_text config.max_message_size) (
            say (lit "250-" ++ (config.hostname ++ lit " greets you"))
              (record (reset s) { greeted = true })))),
    true,
  )
  run_verb helo rest s =
      (say (lit "250 " ++ config.hostname) (record (reset s) { greeted = true }), true)
  run_verb mail rest s =
      if not s.greeted
      then (say (lit "503 Bad sequence of commands") s, true)
      else (set_sender (parse_address_argument rest (lit "FROM")) s, true)
  run_verb rcpt rest s =
      if not s.have_sender
      then (say (lit "503 5.5.1 Need MAIL before RCPT") s, true)
      else if leb max_recipients (length s.envelope.rcpt_to)
      then (say (lit "452 4.5.3 Too many recipients") s, true)
      else (add_recipient handler (parse_address_argument rest (lit "TO")) s, true)
  run_verb payload rest s =
      if is_empty s.envelope.rcpt_to
      then (say (lit "503 5.5.1 Need RCPT before DATA") s, true)
      else (
        received handler (read_data config.max_message_size s.pending)
            (say (lit "354 End data with <CR><LF>.<CR><LF>") s),
        true,
      )
  run_verb rset rest s = (say (lit "250 2.0.0 Ok") (reset s), true)
  run_verb noop rest s = (say (lit "250 2.0.0 Ok") s, true)
  run_verb vrfy rest s = (say (lit "252 2.5.2 Cannot verify recipients") s, true)
  run_verb starttls rest s = (say (lit "454 4.7.0 TLS not available") s, true)
  run_verb quit rest s = (say (lit "221 2.0.0 Bye") s, false)
  run_verb blank rest s = (say (lit "500 5.5.2 Error: bad syntax") s, true)
  run_verb unknown rest s = (say (lit "502 5.5.1 Command not implemented") s, true)

  -- A line that is not UTF-8 is an error of `read_line`, and ends the conversation.
  unfoldable pub run_line : Option Text → Session W → Session W × Bool
  run_line none s = (s, false)
  run_line (some line) s = let (verb, rest) = split_command line in run_verb (classify verb) rest s

  -- One round of the loop: the end of the stream, or a line.
  unfoldable pub turn : List Bytes → Session W → Session W × Bool
  turn [] s = (s, false)
  turn (line ∷ rest) s = run_line (from_utf8 line) (record s { pending = rest })

  abbrev pub go_on : (Session W → Option (Session W)) → Session W × Bool → Option (Session W)
  go_on again (s, true) = again s
  go_on again (s, false) = some s

  -- The loop; `none` means that the fuel ran out.
  unfoldable pub run : ℕ → Session W → Option (Session W)
  run zero s = none
  run (suc fuel) s = go_on (λ t. run fuel t) (turn s.pending s)

  abbrev pub start : W → List Bytes → Session W
  start w lines = record {
    greeted = false;
    have_sender = false;
    envelope = empty_envelope;
    pending = lines;
    replies = (lit "220 " ++ (config.hostname ++ lit " ESMTP weiterleitung")) ∷ [];
    world = w;
  }

  -- The whole conversation over what the client sends. Every round reads a line, so the number of
  -- lines bounds the rounds.
  unfoldable pub handle_session : W → Bytes → Option (Session W)
  handle_session w stream =
      let lines = split_inclusive b'\n' stream in run (length lines + 1) (start w lines)
