-- ===== src/Tests/Sending.antt =====
-- The relay in direct mode: the preferred host is down, and the second takes the message.
use weiterleitung.Prelude.{
  ◌≡◌, refl, Bool, true, false, if◌then◌else◌, is_empty, List, [], ◌∷◌, In, head, Option, none,
  some, Result, ok, err,
}
use weiterleitung.Text.{Text, Bytes, lit, eq_text}
use weiterleitung.Configuration.{DeliverySettings, DkimSettings, relay, direct}
use weiterleitung.Delivery.Relay.Build.{KeyFiles, build, IsDelivered, send-IsDelivered}
use weiterleitung.Delivery.Relay.{
  Relay, Signer, Client, Message, MxRecord, Network, Connected, secured, missing_starttls, refused,
  lookup_mx, host_name, send,
}
use weiterleitung.Delivery.Relay.Transmission.{IsTransmitted, IsChosen, send-IsTransmitted}
use weiterleitung.Delivery.Relay.Preference.{answer, IsBest, send-IsBest, send-accepted}
use weiterleitung.Text.Split.{rsplit_once}

abbrev net : Network
net = record {
  build = λ c. ok tt;
  connect = λ c. if eq_text c.host (lit "a.b.org") then refused (lit "down") else missing_starttls;
  connect_plain = λ c. ok tt;
  send_message = λ c secure m. ok tt;
  send_signed = λ c secure m signer. ok tt;
  mx_lookup = λ domain. ok (
      record { preference = 20; exchange = lit "z.b.org." }
      ∷ record { preference = 10; exchange = lit "a.b.org." }
      ∷ []);
}

abbrev settings : DeliverySettings
settings = record {
  mode = direct;
  relay = none;
  mail_dir = lit "mail";
  poll_interval_secs = 5;
  max_attempts = 3;
  ehlo_hostname = lit "mx";
}

abbrev unsigned_relay : Relay
unsigned_relay = record { settings = settings; signer = none }

hosts : lookup_mx net unsigned_relay (lit "b.org") ≡ lit "a.b.org" ∷ lit "z.b.org" ∷ []
unfolding lookup_mx weiterleitung.Prelude.keep weiterleitung.Prelude.sort_by
    weiterleitung.Text.Trim.trim_end_matches
hosts = refl

sent_ok : send net unsigned_relay (lit "shop@x.io") (lit "bob@b.org") (lit "raw") ≡ ok tt
unfolding send weiterleitung.Text.Split.rsplit_once weiterleitung.Delivery.Relay.try_hosts lookup_mx
    weiterleitung.Prelude.keep weiterleitung.Prelude.sort_by
    weiterleitung.Text.Trim.trim_end_matches weiterleitung.Delivery.Relay.deliver eq_text
sent_ok = refl

send-IsTransmitted_example :
    (client : Client) × IsChosen net unsigned_relay (lit "bob@b.org") client
    × IsTransmitted net unsigned_relay client
        (record { mail_from = lit "shop@x.io"; rcpt_to = lit "bob@b.org"; body = lit "raw" })
send-IsTransmitted_example =
    send-IsTransmitted net unsigned_relay (lit "shop@x.io") (lit "bob@b.org") (lit "raw") sent_ok

abbrev second : MxRecord
second = record { preference = 20; exchange = lit "z.b.org." }

abbrev records : List MxRecord
records = second ∷ record { preference = 10; exchange = lit "a.b.org." } ∷ []

abbrev mail : Message
mail = record { mail_from = lit "shop@x.io"; rcpt_to = lit "bob@b.org"; body = lit "raw" }

parts : rsplit_once b'@' (lit "bob@b.org") ≡ some (lit "bob", lit "b.org")
unfolding rsplit_once
parts = refl

named : is_empty (host_name net unsigned_relay second) ≡ false
unfolding weiterleitung.Text.Trim.trim_end_matches
named = refl

accepts : answer net unsigned_relay mail second ≡ ok tt
unfolding weiterleitung.Delivery.Relay.deliver eq_text weiterleitung.Text.Trim.trim_end_matches
accepts = refl

send-IsBest_example : (r : MxRecord) × IsBest net unsigned_relay mail records r
send-IsBest_example =
    send-IsBest net unsigned_relay (lit "shop@x.io") (lit "bob@b.org") (lit "raw") second refl parts
      refl (head refl) named sent_ok

send-accepted_example :
    send net unsigned_relay (lit "shop@x.io") (lit "bob@b.org") (lit "raw") ≡ ok tt
send-accepted_example =
    send-accepted net unsigned_relay (lit "shop@x.io") (lit "bob@b.org") (lit "raw") second refl
      parts refl (λ h. refl) (head refl) named accepts

abbrev keys : KeyFiles
keys = record {
  read = λ path. ok (lit "pem");
  from_pem_slice = λ pem. ok (lit "der");
  from_key_der = λ der. ok (lit "key");
  resolver = ok tt;
}

abbrev over_smarthost : DeliverySettings
over_smarthost = record {
  mode = relay;
  relay = some (record {
    host = lit "smarthost";
    port = 465;
    username = none;
    password = none;
    implicit_tls = true;
  });
  mail_dir = lit "mail";
  poll_interval_secs = 10;
  max_attempts = 8;
  ehlo_hostname = lit "mx";
}

abbrev dkim : DkimSettings
dkim = record {
  enabled = true;
  domain = lit "x.io";
  selector = lit "s";
  private_key_path = some (lit "key.pem");
}

abbrev a_relay : Relay
a_relay = record {
  settings = over_smarthost;
  signer = some (record { key = lit "key"; domain = lit "x.io"; selector = lit "s" });
}

relay_built : build keys over_smarthost dkim ≡ ok a_relay
unfolding build weiterleitung.Delivery.Relay.Build.build_signer
relay_built = refl

signed_ok : send net a_relay (lit "shop@x.io") (lit "bob@b.org") (lit "raw") ≡ ok tt
unfolding send weiterleitung.Delivery.Relay.deliver eq_text
signed_ok = refl

send-IsDelivered_example :
    (over_smarthost ≡ over_smarthost) × IsDelivered keys net dkim a_relay mail
send-IsDelivered_example =
    send-IsDelivered keys net over_smarthost dkim a_relay (lit "shop@x.io") (lit "bob@b.org")
      (lit "raw") relay_built signed_ok
