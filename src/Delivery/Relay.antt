-- ===== src/Delivery/Relay.antt =====
-- src/delivery/relay.rs: the choice of the hosts that a message is offered to. The SMTP client
-- (mail-send), the DNS resolver (hickory) and the DKIM signer (mail-auth) are third-party; what
-- they answer is a parameter.
pub mod Transmission
pub mod Build
pub mod Preference
use weiterleitung.Prelude.{
  ℕ, Bool, true, false, not, leb, is_empty, List, [], ◌∷◌, ◌++◌, map, keep, sort_by, Option, none,
  some, Result, ok, err,
}
use weiterleitung.Text.{Text, Bytes, lit}
use weiterleitung.Text.Trim.{trim_end_matches}
use weiterleitung.Text.Split.{rsplit_once}
use weiterleitung.Domain.EmailAddress.{is_char}
use weiterleitung.Configuration.{DeliverySettings, RelaySettings, DeliveryMode, relay, direct}

-- A message as `Message::new` takes it, with its one recipient.
pub record Message : Type 0 where
  pub mail_from : Text
  pub rcpt_to : Text
  pub body : Bytes

-- A client as the builder is set up.
pub record Client : Type 0 where
  pub host : Text
  pub port : ℕ
  pub implicit_tls : Bool
  pub helo_host : Text
  pub credentials : Option (Text × Text)
  pub allow_invalid_certs : Bool

-- The answer of `connect`.
pub data Connected : Type 0 where
  secured : Connected
  missing_starttls : Connected
  refused : Text → Connected

pub record MxRecord : Type 0 where
  pub preference : ℕ
  pub exchange : Text

-- An RSA key as it was parsed, and the signer that is made of it.
pub record Signer : Type 0 where
  pub key : Bytes
  pub domain : Text
  pub selector : Text

-- The relay; its resolver is `mx_lookup` of the network.
pub record Relay : Type 0 where
  pub settings : DeliverySettings
  pub signer : Option Signer

abbrev pub with_error : {A : Type 0} → (Text → Text) → Result Text A → Result Text A
with_error f (ok a) = ok a
with_error f (err e) = err (f e)

-- What the network answers: whether a client is valid, `connect`, `connect_plain`, the client's
-- `send` and `send_signed` over the connection that was made, and `mx_lookup`. The flag says
-- whether the connection is secured.
pub record Network : Type 0 where
  pub build : Client → Result Text (Unit {0})
  pub connect : Client → Connected
  pub connect_plain : Client → Result Text (Unit {0})
  pub send_message : Client → Bool → Message → Result Text (Unit {0})
  pub send_signed : Client → Bool → Message → Signer → Result Text (Unit {0})
  pub mx_lookup : Text → Result Text (List MxRecord)

module _ (net : Network) (self : Relay) where
  abbrev pub transmit_by : Client → Bool → Message → Option Signer → Result Text (Unit {0})
  transmit_by client secure message (some signer) =
      with_error (λ e. lit "Failed to send the DKIM-signed message: " ++ e)
        (net.send_signed client secure message signer)
  transmit_by client secure message none =
      with_error (λ e. lit "Failed to send the message: " ++ e)
        (net.send_message client secure message)

  abbrev pub transmit : Client → Bool → Message → Result Text (Unit {0})
  transmit client secure message = transmit_by client secure message self.signer

  -- Opportunistic TLS: clear text only where the peer offers no STARTTLS.
  abbrev pub over_clear_text : Client → Message → Result Text (Unit {0}) → Result Text (Unit {0})
  over_clear_text client message (ok _) = transmit client false message
  over_clear_text client message (err e) = err (lit "Failed to connect over clear text")

  abbrev pub over : Client → Message → Connected → Result Text (Unit {0})
  over client message secured = transmit client true message
  over client message missing_starttls = over_clear_text client message (net.connect_plain client)
  over client message (refused e) = err (lit "Failed to connect to the SMTP server: " ++ e)

  unfoldable pub deliver : Client → Message → Result Text (Unit {0})
  deliver client message = over client message (net.connect client)

  abbrev pub by_preference : MxRecord → MxRecord → Bool
  by_preference a b = leb a.preference b.preference

  abbrev pub host_name : MxRecord → Text
  host_name r = trim_end_matches (is_char b'.') r.exchange

  abbrev pub or_domain : Text → List Text → List Text
  or_domain domain [] = domain ∷ []
  or_domain domain (h ∷ hs) = h ∷ hs

  abbrev pub hosts_of : Text → Result Text (List MxRecord) → List Text
  hosts_of domain (ok records) =
      or_domain domain
        (keep (λ h. not (is_empty h)) (map host_name (sort_by by_preference records)))
  hosts_of domain (err e) = domain ∷ []

  unfoldable pub lookup_mx : Text → List Text
  lookup_mx domain = hosts_of domain (net.mx_lookup domain)

  abbrev pub mx_client : Text → Client
  mx_client host = record {
    host = host;
    port = 25;
    implicit_tls = false;
    helo_host = self.settings.ehlo_hostname;
    credentials = none;
    allow_invalid_certs = true;
  }

  abbrev pub none_accepted : Text → Option Text → Text
  none_accepted domain (some e) = e
  none_accepted domain none = lit "No MX host accepted mail for `" ++ (domain ++ lit "`")

  -- One host, with the result of building its client and that of the delivery to it.
  abbrev pub attempt_host :
      Text
      → Result Text (Unit {0})
      → Result Text (Unit {0})
      → (Text → Result Text (Unit {0}))
      → Result Text (Unit {0})
  attempt_host host (err e) delivery next =
      err (lit "Invalid MX host `" ++ (host ++ (lit "`: " ++ e)))
  attempt_host host (ok _) (ok _) next = ok tt
  attempt_host host (ok _) (err e) next = next e

  -- The loop over the hosts, with the last error; the first success ends it, and so does a host
  -- that no client can be built for.
  unfoldable pub try_hosts : Text → Message → Option Text → List Text → Result Text (Unit {0})
  try_hosts domain message last_error [] = err (none_accepted domain last_error)
  try_hosts domain message last_error (host ∷ hosts) =
      attempt_host host (net.build (mx_client host)) (deliver (mx_client host) message)
        (λ e. try_hosts domain message (some e) hosts)

  abbrev pub credentials_of : Option Text → Option Text → Option (Text × Text)
  credentials_of (some username) (some password) = some (username, password)
  credentials_of _ _ = none

  abbrev pub relay_client : RelaySettings → Client
  relay_client r = record {
    host = r.host;
    port = r.port;
    implicit_tls = r.implicit_tls;
    helo_host = self.settings.ehlo_hostname;
    credentials = credentials_of r.username r.password;
    allow_invalid_certs = false;
  }

  abbrev pub after_build : Client → Message → Result Text (Unit {0}) → Result Text (Unit {0})
  after_build client message (ok _) = deliver client message
  after_build client message (err e) = err (lit "Invalid relay host: " ++ e)

  -- The panic of `expect` is not reached after `Relay::build`.
  abbrev pub to_smarthost : Option RelaySettings → Message → Result Text (Unit {0})
  to_smarthost none message = err (lit "relay settings are validated in `Relay::build`")
  to_smarthost (some r) message = after_build (relay_client r) message (net.build (relay_client r))

  abbrev pub to_domain : Text → Option (Text × Text) → Message → Result Text (Unit {0})
  to_domain envelope_to none message = err (lit "`" ++ (envelope_to ++ lit "` has no domain part"))
  to_domain envelope_to (some (local, domain)) message =
      try_hosts domain message none (lookup_mx domain)

  abbrev pub send_by : DeliveryMode → Message → Result Text (Unit {0})
  send_by relay message = to_smarthost self.settings.relay message
  send_by direct message = to_domain message.rcpt_to (rsplit_once b'@' message.rcpt_to) message

  unfoldable pub send : Text → Text → Bytes → Result Text (Unit {0})
  send envelope_from envelope_to raw =
      send_by self.settings.mode
        (record { mail_from = envelope_from; rcpt_to = envelope_to; body = raw })
