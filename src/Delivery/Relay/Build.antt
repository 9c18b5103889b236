-- ===== src/Delivery/Relay/Build.antt =====
-- `Relay::build` and `build_signer` of src/delivery/relay.rs, and what the signer is for. Reading a
-- file, the parsers of keys and the resolver's configuration are third-party or I/O, and parameters.
use weiterleitung.Prelude.{
  ◌≡◌, refl, ◌∙◌, sym, ap, subst, inl, inr, Bool, true, false, not, Bool-cases, ◌++◌, Option, none,
  some, Result, ok, err, arith, if◌then◌else◌,
}
use weiterleitung.Text.{Text, Bytes, lit}
use weiterleitung.Delivery.Relay.{
  Signer, Relay, with_error, Network, Client, Message, transmit_by, missing_starttls, send,
}
use weiterleitung.Delivery.Relay.Transmission.{IsChosen, send-IsTransmitted}
use weiterleitung.Configuration.{
  DeliverySettings, DeliveryMode, relay, direct, RelaySettings, DkimSettings,
}

pub record KeyFiles : Type 0 where
  pub read : Text → Result Text Bytes
  pub from_pem_slice : Bytes → Result Text Bytes
  pub from_key_der : Bytes → Result Text Bytes
  pub resolver : Result Text (Unit {0})

abbrev pub and_then : {A B : Type 0} → Result Text A → (A → Result Text B) → Result Text B
and_then (ok a) f = f a
and_then (err e) f = err e

abbrev pub needs_relay : DeliveryMode → Option RelaySettings → Bool
needs_relay relay none = true
needs_relay relay (some r) = false
needs_relay direct o = false

and_then-eq-ok :
    {A B : Type 0} (r : Result Text A) (f : A → Result Text B) {b : B}
    → and_then r f ≡ ok b
    → (a : A) × (r ≡ ok a) × (f a ≡ ok b)
and_then-eq-ok (ok a) f h = (a, refl, h)
and_then-eq-ok (err e) f h = cc

module _ (files : KeyFiles) where
  abbrev pub load_key : Text → Result Text Bytes
  load_key path =
      and_then (with_error (λ e. lit "Failed to read the DKIM key at " ++ path) (files.read path))
        (λ pem.
          and_then
            (with_error (λ e. lit "Failed to read the DKIM private key as PEM: " ++ e)
              (files.from_pem_slice pem))
            (λ der.
              with_error (λ e. lit "Failed to parse the DKIM private key: " ++ e)
                (files.from_key_der der)))

  abbrev pub signer_at : DkimSettings → Option Text → Result Text (Option Signer)
  signer_at dkim none = err (lit "DKIM is enabled but `dkim.private_key_path` is not set")
  signer_at dkim (some path) =
      and_then (load_key path)
        (λ key. ok (some (record { key = key; domain = dkim.domain; selector = dkim.selector })))

  unfoldable pub build_signer : DkimSettings → Result Text (Option Signer)
  build_signer dkim = if not dkim.enabled then ok none else signer_at dkim dkim.private_key_path

  unfoldable pub build : DeliverySettings → DkimSettings → Result Text Relay
  build settings dkim =
      if needs_relay settings.mode settings.relay
      then err (lit "`delivery.mode` is `relay` but no `delivery.relay` block was configured")
      else and_then (build_signer dkim) (λ signer.
        and_then (with_error (λ e. lit "Failed to build the DNS resolver") files.resolver)
          (λ _. ok (record { settings = settings; signer = signer })))

-- What became of a message: it was sent unsigned where DKIM is disabled, and otherwise signed with
-- the key of the configured file, for the domain and the selector of the settings.
pub data IsSent (files : KeyFiles) (net : Network) (dkim : DkimSettings) (client : Client)
    (secure : Bool) (message : Message) : Type 0 where
  unsigned :
      dkim.enabled ≡ false
      → net.send_message client secure message ≡ ok tt
      → IsSent files net dkim client secure message
  signed :
      (path : Text) (key : Bytes)
      → dkim.enabled ≡ true
      → dkim.private_key_path ≡ some path
      → load_key files path ≡ ok key
      → net.send_signed client secure message
          (record { key = key; domain = dkim.domain; selector = dkim.selector })
        ≡ ok tt
      → IsSent files net dkim client secure message

with_error-eq-ok :
    {A : Type 0} (f : Text → Text) (r : Result Text A) {a : A} → with_error f r ≡ ok a → r ≡ ok a
with_error-eq-ok f (ok a) h = h
with_error-eq-ok f (err e) h = cc

module _ (files : KeyFiles) (net : Network) (dkim : DkimSettings) (self : Relay) (client : Client)
    (secure : Bool) (message : Message) where
  signer_at-IsSent :
      (o : Option Text) (signer : Option Signer)
      → dkim.enabled ≡ true
      → dkim.private_key_path ≡ o
      → signer_at files dkim o ≡ ok signer
      → transmit_by net self client secure message signer ≡ ok tt
      → IsSent files net dkim client secure message
  signer_at-IsSent none signer on p h k = cc
  signer_at-IsSent (some path) signer on p h k =
      let (key, e, m) = and_then-eq-ok (load_key files path) _ h in
      let made : Signer = record { key = key; domain = dkim.domain; selector = dkim.selector } in
      let q : some made ≡ signer = ground arith in
      signed path key on p e (
        with_error-eq-ok _ _
          (subst (λ o. transmit_by net self client secure message o ≡ ok tt) (sym q) k))

  build_signer-IsSent :
      (signer : Option Signer)
      → build_signer files dkim ≡ ok signer
      → transmit_by net self client secure message signer ≡ ok tt
      → IsSent files net dkim client secure message
  unfolding build_signer
  build_signer-IsSent signer h k = elim (Bool-cases dkim.enabled) [
    | inl e ↦ signer_at-IsSent dkim.private_key_path signer e refl (rw e at h) k
    | inr e ↦
        let off : ok none ≡ ok signer = rw e at h in
        let q : none ≡ signer = ground arith in
        unsigned e (
          with_error-eq-ok _ _
            (subst (λ o. transmit_by net self client secure message o ≡ ok tt) (sym q) k))
  ]

-- The parts of a relay that was built.
build-parts :
    (files : KeyFiles) (settings : DeliverySettings) (dkim : DkimSettings) (self : Relay)
    → build files settings dkim ≡ ok self
    → (self.settings ≡ settings) × (build_signer files dkim ≡ ok self.signer)
unfolding build
build-parts files settings dkim self h =
    elim (Bool-cases (needs_relay settings.mode settings.relay)) [
      | inl e ↦ ground arith
      | inr e ↦
          let k : and_then (build_signer files dkim) (λ signer.
            and_then (with_error (λ e. lit "Failed to build the DNS resolver") files.resolver)
              (λ _. ok (record { settings = settings; signer = signer })))
              ≡ ok self =
            rw e at h in
          let (signer, f, m) = and_then-eq-ok (build_signer files dkim) _ k in
          let (t, g, n) = and_then-eq-ok (with_error _ files.resolver) _ m in
          let made : Relay = record { settings = settings; signer = signer } in
          let q : made ≡ self = ground arith in
          (sym (ap (λ (r : Relay). r.settings) q), f ∙ ap (λ (r : Relay). ok r.signer) q)
    ]

-- The message went to a host that the settings choose, over clear text only where that host offers
-- no STARTTLS.
pub record IsDelivered (files : KeyFiles) (net : Network) (dkim : DkimSettings) (self : Relay)
    (message : Message) : Type 0 where
  pub client : Client
  pub chosen : IsChosen net self message.rcpt_to client
  pub secure : Bool
  pub clear_text : secure ≡ false → net.connect client ≡ missing_starttls
  pub sent : IsSent files net dkim client secure message

-- What a delivery over a relay that was built has done, where it succeeds: the message was
-- transmitted, with its envelope as it was given, to a host that the settings choose, over clear
-- text only where that host offers no STARTTLS, and it was signed as the DKIM settings say where
-- they enable it, with the key that their file holds, and sent unsigned where they do not.
pub send-IsDelivered :
    (files : KeyFiles) (net : Network) (settings : DeliverySettings) (dkim : DkimSettings)
    (self : Relay) (envelope_from envelope_to : Text) (raw : Bytes)
    → build files settings dkim ≡ ok self
    → send net self envelope_from envelope_to raw ≡ ok tt
    → (self.settings ≡ settings)
      × IsDelivered files net dkim self
          (record { mail_from = envelope_from; rcpt_to = envelope_to; body = raw })
send-IsDelivered files net settings dkim self envelope_from envelope_to raw built h =
    let (same, signer) = build-parts files settings dkim self built in
    let (client, chosen, t) = send-IsTransmitted net self envelope_from envelope_to raw h in
    (
      same,
      record {
        client = client;
        chosen = chosen;
        secure = t.encrypted;
        clear_text = t.clear_text;
        sent =
            build_signer-IsSent files net dkim self client t.encrypted
              (record { mail_from = envelope_from; rcpt_to = envelope_to; body = raw }) self.signer
              signer t.transmitted;
      },
    )
