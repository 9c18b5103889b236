-- ===== src/Tests/Fixture.antt =====
-- A small installation: one mailbox, three aliases, one contact, and an outbox.
use weiterleitung.Prelude.{
  if◌then◌else◌, ℕ, ◌+◌, Bool, true, false, List, [], ◌∷◌, ◌++◌, map, none, refl, String, ok, err,
}
use weiterleitung.Text.{Text, Bytes, lit, eq_text, Unicode, to_ascii_lowercase}
use weiterleitung.Database.{
  Db, World, Mailbox, Alias, Contact, OutboxRow, Status, pending, delivered,
}
use weiterleitung.Smtp.Session.{Envelope, MailHandler, accept, reject, SessionConfig}
use weiterleitung.Smtp.Router.{AliasRouter}
use weiterleitung.Delivery.Worker.{Sender}

-- Lower case for ASCII alone.
instance abbrev pub ascii : Unicode
ascii = record { to_lowercase = map to_ascii_lowercase; to_lowercase_ascii = λ s h. refl }

abbrev pub lines : List String → Bytes
lines [] = []
lines (l ∷ ls) = lit l ++ (b'\r' ∷ b'\n' ∷ lines ls)

abbrev pub home : Mailbox
home = record {
  mailbox_id = lit "m1";
  email = lit "me@home.org";
  is_default = true;
  created_at = 0;
}

abbrev pub an_alias : String → String → Bool → Alias
an_alias id address enabled = record {
  alias_id = lit id;
  address = lit address;
  mailbox_id = lit "m1";
  note = none;
  enabled = enabled;
  forward_count = 0;
  reply_count = 0;
  blocked_count = 0;
  created_at = 0;
  last_used_at = none;
}

abbrev pub bob : Contact
bob = record {
  contact_id = lit "c1";
  alias_id = lit "a1";
  email = lit "bob@b.org";
  name = none;
  reverse_alias = lit "r.t@x.io";
  created_at = 0;
}

abbrev pub a_row : String → Status → ℕ → OutboxRow
a_row id status time = record {
  message = record {
    message_id = lit id;
    direction = lit "forward";
    envelope_from = lit "r.t@x.io";
    envelope_to = lit "me@home.org";
    raw_path = lit id;
    alias_id = none;
    contact_id = none;
    subject = none;
    status = status;
    attempts = 0;
    last_error = none;
    created_at = 0;
  };
  next_attempt_at = time;
  delivered_at = none;
}

abbrev pub tables : Db
tables = record {
  users = [];
  mailboxes = home ∷ [];
  aliases = an_alias "a1" "shop@x.io" true ∷ an_alias "a2" "old@x.io" false ∷ [];
  contacts = bob ∷ [];
  outbox = a_row "d" delivered 0 ∷ a_row "p" pending 5 ∷ a_row "q" pending 900 ∷ [];
}

abbrev pub world : World
world = record {
  db = tables;
  spool = (lit "p", lit "raw") ∷ [];
  clock = 100;
  faults = [];
  uuid = λ n. lit "id" ++ ((b'0' + n) ∷ []);
  sample = λ n. b'K';
  range = λ n k. 0;
  drawn = 0;
}

abbrev pub router : AliasRouter
router = record {
  aliases = record { domains = lit "x.io" ∷ []; reverse_alias_prefix = lit "r" };
  mail_dir = lit "mail";
}

-- A message from a stranger, and one from the mailbox to the contact.
abbrev pub incoming : Envelope
incoming = record {
  mail_from = lit "Eve@e.org";
  rcpt_to = lit "Shop@x.io" ∷ lit "shop@X.IO" ∷ [];
  payload =
      lines (
        "From: Eve <eve@e.org>" ∷ "Subject: hi" ∷ "DKIM-Signature: a;" ∷ " b=c" ∷ "" ∷ "body" ∷ []);
}

abbrev pub outgoing : Envelope
outgoing = record {
  mail_from = lit "ME@home.org";
  rcpt_to = lit "r.t@x.io" ∷ [];
  payload = lines ("From: me@home.org" ∷ "Subject: re" ∷ "" ∷ "body" ∷ []);
}

-- A handler that accepts one address and keeps what it is given.
abbrev pub shop : Text
shop = lit "shop@x.io"

abbrev pub recorder : MailHandler (List Envelope)
recorder = record {
  verify_recipient =
      λ from to w. (if eq_text to shop then accept else reject (lit "No such alias"), w);
  handle = λ e w. (ok tt, e ∷ w);
}

abbrev pub config : SessionConfig
config = record { hostname = lit "mx"; max_message_size = 20 }

-- A relay that refuses everything.
abbrev pub closed : Sender
closed w from to raw = err (lit "refused")
