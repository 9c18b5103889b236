-- ===== src/Smtp/Router/Queued/Forwarded.antt =====
-- What `forward` of src/smtp/router.rs queues, with the alias and the contact that it rests on.
use weiterleitung.Prelude.{◌≡◌, subst, In, sym, Option, some, ok}
use weiterleitung.Text.{Text, Bytes, Unicode, lit}
use weiterleitung.Domain.EmailAddress.{EmailAddress, parse, normalised, to_string}
use weiterleitung.Database.{Db, World, OutboxRow, AliasWithMailbox, Contact}
use weiterleitung.Contact.Stable.{IsStored}
use weiterleitung.Smtp.Rewrite.{split_headers_body, header_value, rewrite_for_forward}
use weiterleitung.Smtp.Session.{Envelope}
use weiterleitung.Smtp.Router.{envelope_sender, bind_name, display_name}
use weiterleitung.Smtp.Router.Authority.{AliasRow}

abbrev pub from_of : Envelope → Option Text
from_of envelope = header_value (split_headers_body envelope.payload).0 (lit "from")

module _ ⦃u : Unicode⦄ where
  -- The row goes to the mailbox of the alias that the tables hold under the address, from the
  -- reverse alias of the contact that they hold afterwards for the route's alias and the sender.
  pub record IsForwarded (w v : World) (envelope : Envelope) (row : OutboxRow) (raw : Bytes)
      (alias_id alias : Text) : Type 0 where
    pub address : EmailAddress
    pub parsed : parse alias ≡ ok address
    pub target : AliasWithMailbox
    pub target_row : AliasRow w.db target
    pub target_address : target.alias.address ≡ normalised address
    pub to : row.message.envelope_to ≡ target.mailbox_email
    pub counted : row.message.alias_id ≡ some alias_id
    pub sender : EmailAddress
    pub written_by : envelope_sender envelope.mail_from (from_of envelope) ≡ ok sender
    pub contact : Contact
    pub contact_row : IsStored alias_id sender contact v.db
    pub contact_id : row.message.contact_id ≡ some contact.contact_id
    pub from : row.message.envelope_from ≡ contact.reverse_alias
    pub rewritten :
        raw
        ≡ rewrite_for_forward envelope.payload (record {
          alias = alias;
          reverse_alias = contact.reverse_alias;
          sender_name = bind_name (from_of envelope) display_name;
          sender_email = to_string sender;
        })

  pub IsForwarded-db :
      (w w' v : World) (envelope : Envelope) (row : OutboxRow) (raw : Bytes) (alias_id alias : Text)
      → w'.db ≡ w.db
      → IsForwarded w' v envelope row raw alias_id alias
      → IsForwarded w v envelope row raw alias_id alias
  IsForwarded-db w w' v envelope row raw alias_id alias e f = record {
    address = f.address;
    parsed = f.parsed;
    target = f.target;
    target_row = subst (λ d. AliasRow d f.target) e f.target_row;
    target_address = f.target_address;
    to = f.to;
    counted = f.counted;
    sender = f.sender;
    written_by = f.written_by;
    contact = f.contact;
    contact_row = f.contact_row;
    contact_id = f.contact_id;
    from = f.from;
    rewritten = f.rewritten;
  }

  pub IsStored-contacts :
      (alias_id : Text) (address : EmailAddress) (c : Contact) (db db' : Db)
      → db'.contacts ≡ db.contacts
      → IsStored alias_id address c db
      → IsStored alias_id address c db'
  IsStored-contacts alias_id address c db db' e s = record {
    stored = subst (In c) (sym e) s.stored;
    owner = s.owner;
    email = s.email;
  }
