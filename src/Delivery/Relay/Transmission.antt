-- ===== src/Delivery/Relay/Transmission.antt =====
-- What a delivery that succeeds has done.
use weiterleitung.Prelude.{
  ◌≡◌, refl, Bool, true, false, List, [], ◌∷◌, In, head, later, Option, none, some, Result, ok, err,
}
use weiterleitung.Text.{Text, Bytes}
use weiterleitung.Text.Split.{rsplit_once}
use weiterleitung.Configuration.{RelaySettings, DeliveryMode, relay, direct}
use weiterleitung.Delivery.Relay.{
  Relay, Message, Client, transmit, Connected, secured, missing_starttls, refused, Network,
  over_clear_text, over, deliver, lookup_mx, mx_client, attempt_host, try_hosts, relay_client,
  after_build, to_smarthost, to_domain, send_by, send,
}

-- The message was transmitted over a connection to the client's host, and over clear text only
-- where the host offers no STARTTLS.
pub record IsTransmitted (net : Network) (self : Relay) (client : Client) (message : Message)
    : Type 0 where
  pub encrypted : Bool
  pub transmitted : transmit net self client encrypted message ≡ ok tt
  pub clear_text : encrypted ≡ false → net.connect client ≡ missing_starttls

-- The hosts that the settings allow: the smarthost, or those of the recipient's domain.
pub data IsChosen (net : Network) (self : Relay) (to : Text) : Client → Type 0 where
  smarthost :
      (r : RelaySettings)
      → self.settings.mode ≡ relay
      → self.settings.relay ≡ some r
      → IsChosen net self to (relay_client net self r)
  exchange :
      (local_part domain host : Text)
      → self.settings.mode ≡ direct
      → rsplit_once b'@' to ≡ some (local_part, domain)
      → In host (lookup_mx net self domain)
      → IsChosen net self to (mx_client net self host)

module _ (net : Network) (self : Relay) where
  deliver-IsTransmitted :
      (client : Client) (message : Message)
      → deliver net self client message ≡ ok tt
      → IsTransmitted net self client message
  unfolding deliver
  deliver-IsTransmitted client message h = from (net.connect client) refl h
    where
      clear :
          (x : Result Text (Unit {0}))
          → over_clear_text net self client message x ≡ ok tt
          → transmit net self client false message ≡ ok tt
      clear (ok t) k = k
      clear (err e) k = cc

      from :
          (c : Connected)
          → net.connect client ≡ c
          → over net self client message c ≡ ok tt
          → IsTransmitted net self client message
      from secured e k = record { encrypted = true; transmitted = k; clear_text = λ q. cc }
      from missing_starttls e k = record {
        encrypted = false;
        transmitted = clear (net.connect_plain client) k;
        clear_text = λ q. e;
      }
      from (refused x) e k = cc

  try_hosts-IsTransmitted :
      (domain : Text) (message : Message) (last : Option Text) (hosts : List Text)
      → try_hosts net self domain message last hosts ≡ ok tt
      → (host : Text) × In host hosts × IsTransmitted net self (mx_client net self host) message
  unfolding try_hosts
  try_hosts-IsTransmitted domain message last [] h = cc
  try_hosts-IsTransmitted domain message last (host ∷ hosts) h =
      from (net.build (mx_client net self host))
        (deliver net self (mx_client net self host) message) refl h
        (λ e. try_hosts-IsTransmitted domain message (some e) hosts)
    where
      from :
          (b d : Result Text (Unit {0}))
          → deliver net self (mx_client net self host) message ≡ d
          → attempt_host net self host b d (λ e. try_hosts net self domain message (some e) hosts)
            ≡ ok tt
          → ((e : Text)
              → try_hosts net self domain message (some e) hosts ≡ ok tt
              → (x : Text) × In x hosts × IsTransmitted net self (mx_client net self x) message)
          → (x : Text) × In x (host ∷ hosts) × IsTransmitted net self (mx_client net self x) message
      from (err e) d q k again = cc
      from (ok t) (ok u) q k again =
          (host, head refl, deliver-IsTransmitted (mx_client net self host) message q)
      from (ok t) (err e) q k again = let (x, i, s) = again e k in (x, later i, s)

  -- A delivery that succeeds has transmitted the message, with its envelope as it was given, over a
  -- connection to the smarthost of the settings or to a host of the recipient's domain, as the mode
  -- says, and over clear text only where that host offers no STARTTLS.
  pub send-IsTransmitted :
      (envelope_from envelope_to : Text) (raw : Bytes)
      → send net self envelope_from envelope_to raw ≡ ok tt
      → (client : Client) × IsChosen net self envelope_to client
        × IsTransmitted net self client
            (record { mail_from = envelope_from; rcpt_to = envelope_to; body = raw })
  unfolding send
  send-IsTransmitted envelope_from envelope_to raw h = from self.settings.mode refl h
    where
      message : Message
      message = record { mail_from = envelope_from; rcpt_to = envelope_to; body = raw }

      Done : Type 0
      Done =
          (client : Client) × IsChosen net self envelope_to client
          × IsTransmitted net self client message

      by_smarthost :
          (o : Option RelaySettings)
          → self.settings.mode ≡ relay
          → self.settings.relay ≡ o
          → to_smarthost net self o message ≡ ok tt
          → Done
      by_smarthost none m e k = cc
      by_smarthost (some r) m e k = built (net.build (relay_client net self r)) k
        where
          built :
              (x : Result Text (Unit {0}))
              → after_build net self (relay_client net self r) message x ≡ ok tt
              → Done
          built (ok t) l = (
            relay_client net self r,
            smarthost r m e,
            deliver-IsTransmitted (relay_client net self r) message l,
          )
          built (err x) l = cc

      by_domain :
          (o : Option (Text × Text))
          → self.settings.mode ≡ direct
          → rsplit_once b'@' envelope_to ≡ o
          → to_domain net self envelope_to o message ≡ ok tt
          → Done
      by_domain none m e k = cc
      by_domain (some (local_part, domain)) m e k =
          let (host, i, t) =
            try_hosts-IsTransmitted domain message none (lookup_mx net self domain) k in
          (mx_client net self host, exchange local_part domain host m e i, t)

      from :
          (mode : DeliveryMode)
          → self.settings.mode ≡ mode
          → send_by net self mode message ≡ ok tt
          → Done
      from relay m k = by_smarthost self.settings.relay m refl k
      from direct m k = by_domain (rsplit_once b'@' envelope_to) m refl k
