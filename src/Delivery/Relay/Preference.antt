-- ===== src/Delivery/Relay/Preference.antt =====
-- The order in which `send` tries the hosts of a domain, and when one of them gets the message.
use weiterleitung.Prelude.{
  ℕ, ◌<◌, ◌≡◌, refl, sym, ap, ◌∙◌, Bool, true, false, not, leb, leb→le, is_empty, Bool-cases, List,
  [], ◌∷◌, map, keep, sort_by, In, head, later, In-map, In-keep, Before, Before-In, IsSorted,
  In-sort_by, sort_by-In, sort_by-IsSorted, Option, none, some, Result, ok, err, inl, inr, arith,
}
use weiterleitung.Text.{Text, Bytes}
use weiterleitung.Text.Split.{rsplit_once}
use weiterleitung.Configuration.{direct}
use weiterleitung.Delivery.Relay.{
  Relay, Message, MxRecord, Network, deliver, by_preference, host_name, or_domain, hosts_of,
  lookup_mx, mx_client, attempt_host, try_hosts, to_domain, send_by, send,
}

-- What the delivery to the host of a record answers.
abbrev pub answer : Network → Relay → Message → MxRecord → Result Text (Unit {0})
answer net self message r = deliver net self (mx_client net self (host_name net self r)) message

-- The host of `r` accepted the message, and those that the domain prefers to it did not.
pub record IsBest (net : Network) (self : Relay) (message : Message) (records : List MxRecord)
    (r : MxRecord) : Type 0 where
  pub listed : In r records
  pub accepted : answer net self message r ≡ ok tt
  pub preferred :
      (s : MxRecord)
      → In s records
      → is_empty (host_name net self s) ≡ false
      → s.preference < r.preference
      → (e : Text) × (answer net self message s ≡ err e)

module _ (net : Network) (self : Relay) where
  -- The names of the hosts of the records, without empty ones.
  abbrev names : List MxRecord → List Text
  names rs = keep (λ h. not (is_empty h)) (map (host_name net self) rs)

  In-names :
      {r : MxRecord} (rs : List MxRecord)
      → In r rs
      → is_empty (host_name net self r) ≡ false
      → In (host_name net self r) (names rs)
  In-names rs m h =
      In-keep (λ x. not (is_empty x)) (map (host_name net self) rs)
        (In-map (host_name net self) rs m) (ap not h)

  or_domain-names :
      {h : Text} (domain : Text) (hs : List Text) → In h hs → or_domain net self domain hs ≡ hs
  or_domain-names domain [] m = elim m [ ]
  or_domain-names domain (h ∷ hs) m = refl

  lookup_mx-names :
      {r : MxRecord} (domain : Text) (records : List MxRecord)
      → net.mx_lookup domain ≡ ok records
      → In r records
      → is_empty (host_name net self r) ≡ false
      → lookup_mx net self domain ≡ names (sort_by (by_preference net self) records)
  unfolding lookup_mx
  lookup_mx-names domain records h m n =
      ap (hosts_of net self domain) h
      ∙ or_domain-names domain (names (sort_by (by_preference net self) records)) (
          In-names (sort_by (by_preference net self) records)
            (In-sort_by (by_preference net self) records m) n)

  send-try_hosts :
      {r : MxRecord} (envelope_from envelope_to : Text) (raw : Bytes) {local_part domain : Text}
      {records : List MxRecord}
      → self.settings.mode ≡ direct
      → rsplit_once b'@' envelope_to ≡ some (local_part, domain)
      → net.mx_lookup domain ≡ ok records
      → In r records
      → is_empty (host_name net self r) ≡ false
      → send net self envelope_from envelope_to raw
        ≡ try_hosts net self domain
            (record { mail_from = envelope_from; rcpt_to = envelope_to; body = raw })
            none
            (names (sort_by (by_preference net self) records))
  unfolding send
  send-try_hosts envelope_from envelope_to raw {domain = domain} {records = records} m s l i n =
      let message : Message = record {
        mail_from = envelope_from;
        rcpt_to = envelope_to;
        body = raw;
      } in
      ap (λ mode. send_by net self mode message) m
      ∙ ap (λ parts. to_domain net self envelope_to parts message) s
      ∙ ap (try_hosts net self domain message none) (lookup_mx-names domain records l i n)

  module _ (message : Message) where
    later-IsBest :
        (x r : MxRecord) (rs : List MxRecord)
        → (is_empty (host_name net self x) ≡ false
            → (e : Text) × (answer net self message x ≡ err e))
        → IsBest net self message rs r
        → IsBest net self message (x ∷ rs) r
    later-IsBest x r rs f b = record {
      listed = later b.listed;
      accepted = b.accepted;
      preferred = λ s i. prior s i;
    }
      where
        prior :
            (s : MxRecord)
            → In s (x ∷ rs)
            → is_empty (host_name net self s) ≡ false
            → s.preference < r.preference
            → (e : Text) × (answer net self message s ≡ err e)
        prior s (head q) n p =
            let (e, h) = f (ap (λ y. is_empty (host_name net self y)) (sym q) ∙ n) in
            (e, ap (answer net self message) q ∙ h)
        prior s (later i) n p = b.preferred s i n p

    first-IsBest :
        (x : MxRecord) (rs : List MxRecord)
        → Before (by_preference net self) x rs
        → answer net self message x ≡ ok tt
        → IsBest net self message (x ∷ rs) x
    first-IsBest x rs b h = record {
      listed = head refl;
      accepted = h;
      preferred = λ s i n p. none_before s i p;
    }
      where
        none_before :
            (s : MxRecord)
            → In s (x ∷ rs)
            → s.preference < x.preference
            → (e : Text) × (answer net self message s ≡ err e)
        none_before s (head q) p =
            let e : s.preference ≡ x.preference = ap (λ (y : MxRecord). y.preference) q in
            absurd (omega arith)
        none_before s (later i) p =
            let k =
              leb→le x.preference s.preference (Before-In (by_preference net self) x rs b i) in
            absurd (omega arith)

    -- The loop over the hosts of records in the order of their preference.
    try_hosts-IsBest :
        (domain : Text) (last : Option Text) (rs : List MxRecord)
        → IsSorted (by_preference net self) rs
        → try_hosts net self domain message last (names rs) ≡ ok tt
        → (r : MxRecord) × IsBest net self message rs r
    unfolding try_hosts weiterleitung.Prelude.keep
    try_hosts-IsBest domain last [] s h = cc
    try_hosts-IsBest domain last (x ∷ rs) s h =
        elim (Bool-cases (is_empty (host_name net self x))) [
          | inl e ↦
              let (r, b) = try_hosts-IsBest domain last rs s.1 (rw e at h) in
              (r, later-IsBest x r rs (λ n. cc) b)
          | inr e ↦
              tried (net.build (mx_client net self (host_name net self x)))
                (answer net self message x) refl (rw e at h)
                (λ o. try_hosts-IsBest domain (some o) rs s.1)
        ]
      where
        tried :
            (b d : Result Text (Unit {0}))
            → answer net self message x ≡ d
            → attempt_host net self
                (host_name net self x)
                b
                d
                (λ e. try_hosts net self domain message (some e) (names rs))
              ≡ ok tt
            → ((e : Text)
                → try_hosts net self domain message (some e) (names rs) ≡ ok tt
                → (r : MxRecord) × IsBest net self message rs r)
            → (r : MxRecord) × IsBest net self message (x ∷ rs) r
        tried (err e) d q k again = cc
        tried (ok t) (ok u) q k again = (x, first-IsBest x rs s.0 q)
        tried (ok t) (err e) q k again =
            let (r, b) = again e k in (r, later-IsBest x r rs (λ n. (e, q)) b)

    try_hosts-accepted :
        {host : Text} (domain : Text) (last : Option Text) (hosts : List Text)
        → ((h : Text) → net.build (mx_client net self h) ≡ ok tt)
        → In host hosts
        → deliver net self (mx_client net self host) message ≡ ok tt
        → try_hosts net self domain message last hosts ≡ ok tt
    unfolding try_hosts
    try_hosts-accepted domain last [] v i a = elim i [ ]
    try_hosts-accepted domain last (x ∷ hosts) v (head q) a =
        let b : deliver net self (mx_client net self x) message ≡ ok tt = rw q at a in
        rw (v x) (rw b refl)
    try_hosts-accepted domain last (x ∷ hosts) v (later i) a = rw (v x) (
        passed (deliver net self (mx_client net self x) message)
          (λ e. try_hosts-accepted domain (some e) hosts v i a))
      where
        passed :
            (d : Result Text (Unit {0}))
            → ((e : Text) → try_hosts net self domain message (some e) hosts ≡ ok tt)
            → attempt_host net self x
                (ok tt)
                d
                (λ e. try_hosts net self domain message (some e) hosts)
              ≡ ok tt
        passed (ok t) f = refl
        passed (err e) f = f e

  -- Where mail goes to the hosts of the recipient's domain, and the look-up lists one with a name,
  -- a delivery that succeeds was accepted by a listed host, and each listed host that has a name
  -- and a lower preference value was asked and did not take the message.
  pub send-IsBest :
      (envelope_from envelope_to : Text) (raw : Bytes) {local_part domain : Text}
      {records : List MxRecord} (named : MxRecord)
      → self.settings.mode ≡ direct
      → rsplit_once b'@' envelope_to ≡ some (local_part, domain)
      → net.mx_lookup domain ≡ ok records
      → In named records
      → is_empty (host_name net self named) ≡ false
      → send net self envelope_from envelope_to raw ≡ ok tt
      → (r : MxRecord) × IsBest net self
          (record { mail_from = envelope_from; rcpt_to = envelope_to; body = raw })
          records
          r
  send-IsBest envelope_from envelope_to raw {domain = domain} {records = records} named m s l i n
        h =
      let message : Message = record {
        mail_from = envelope_from;
        rcpt_to = envelope_to;
        body = raw;
      } in
      let order = by_preference net self in
      let (r, b) =
        try_hosts-IsBest message domain none (sort_by order records)
          (sort_by-IsSorted order (λ x y k. ground arith) (λ x y z j k. ground arith) records)
          (sym (send-try_hosts envelope_from envelope_to raw m s l i n) ∙ h) in
      (
        r,
        record {
          listed = sort_by-In order records b.listed;
          accepted = b.accepted;
          preferred = λ x k. b.preferred x (In-sort_by order records k);
        },
      )

  -- Where mail goes to the hosts of the recipient's domain, and a client can be built for every
  -- host, the delivery succeeds if some host that the look-up lists, with a name, accepts the
  -- message, whatever the others answer.
  pub send-accepted :
      (envelope_from envelope_to : Text) (raw : Bytes) {local_part domain : Text}
      {records : List MxRecord} (r : MxRecord)
      → self.settings.mode ≡ direct
      → rsplit_once b'@' envelope_to ≡ some (local_part, domain)
      → net.mx_lookup domain ≡ ok records
      → ((h : Text) → net.build (mx_client net self h) ≡ ok tt)
      → In r records
      → is_empty (host_name net self r) ≡ false
      → answer net self (record { mail_from = envelope_from; rcpt_to = envelope_to; body = raw }) r
        ≡ ok tt
      → send net self envelope_from envelope_to raw ≡ ok tt
  send-accepted envelope_from envelope_to raw {domain = domain} {records = records} r m s l v i n
        a =
      send-try_hosts envelope_from envelope_to raw m s l i n
      ∙ try_hosts-accepted (record { mail_from = envelope_from; rcpt_to = envelope_to; body = raw })
          domain none (names (sort_by (by_preference net self) records)) v
          (In-names (sort_by (by_preference net self) records)
            (In-sort_by (by_preference net self) records i) n)
          a
