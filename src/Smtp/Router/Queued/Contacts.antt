-- ===== src/Smtp/Router/Queued/Contacts.antt =====
-- Finding or creating a contact: what the insertion of a contact keeps is kept, and so the queue is.
use weiterleitung.Prelude.{ℕ, zero, suc, ◌≡◌, refl, ◌∙◌, Option, none, some, ok, arith}
use weiterleitung.Text.{Text, Unicode}
use weiterleitung.Domain.EmailAddress.{EmailAddress}
use weiterleitung.Database.{Db, World, Contact}
use weiterleitung.Database.Exec.{Exec}
use weiterleitung.Database.Frame.{
  Steps, IsFrame, Steps-bind, Steps-pure, Steps-fail, Steps-select, Steps-execute, Steps-new_uuid,
  Steps-draw_byte, Steps-now, Steps-map_err,
}
use weiterleitung.Alias.Generator.{random_token}
use weiterleitung.Contact.{
  insert_row, find_contact, or_disappeared, create_contact, or_create, get_or_create_contact,
}

-- The outbox, the spool and the clock are the same.
pub record KeepsQueue (w v : World) : Type 0 where
  pub outbox : v.db.outbox ≡ w.db.outbox
  pub spool : v.spool ≡ w.spool
  pub clock : v.clock ≡ w.clock

KeepsQueue-IsFrame : IsFrame KeepsQueue
KeepsQueue-IsFrame = record {
  same = λ w. record { outbox = refl; spool = refl; clock = refl };
  trans = λ a b c h k. record {
    outbox = k.outbox ∙ h.outbox;
    spool = k.spool ∙ h.spool;
    clock = k.clock ∙ h.clock;
  };
  faults = λ w fs. record { outbox = refl; spool = refl; clock = refl };
  draw = λ w n. record { outbox = refl; spool = refl; clock = refl };
}

module _ {R : World → World → Type 0} (frame : IsFrame R) where
  pub Steps-random_token : (n : ℕ) → Steps R (random_token {E = Text} n)
  unfolding random_token
  Steps-random_token zero = Steps-pure frame _
  Steps-random_token (suc n) =
      Steps-bind frame _ _ (Steps-draw_byte frame)
        (λ byte. Steps-bind frame _ _ (Steps-random_token n) (λ rest. Steps-pure frame _))

  Steps-find_contact : (alias_id email : Text) → Steps R (find_contact alias_id email)
  unfolding find_contact
  Steps-find_contact alias_id email = Steps-select frame _

  Steps-or_disappeared : (o : Option Contact) → Steps R (or_disappeared o)
  Steps-or_disappeared none = Steps-fail frame _
  Steps-or_disappeared (some c) = Steps-pure frame _

  Steps-or_create :
      (o : Option Contact) (m : Exec Text Contact) → Steps R m → Steps R (or_create o m)
  Steps-or_create none m s = s
  Steps-or_create (some c) m s = Steps-pure frame _

module _ {R : World → World → Type 0} (frame : IsFrame R)
    (inserts : (c : Contact) (w : World) (db : Db)
      → insert_row c w.db ≡ ok db
      → R w (record w { db = db })) where
  Steps-create_contact :
      (alias_id email : Text) (name : Option Text) (prefix domain : Text)
      → Steps R (create_contact alias_id email name prefix domain)
  unfolding create_contact
  Steps-create_contact alias_id email name prefix domain =
      Steps-bind frame _ _ (Steps-new_uuid frame) (λ id.
        Steps-bind frame _ _ (Steps-random_token frame 12) (λ token.
          Steps-bind frame _ _ (Steps-now frame) (λ time.
            Steps-bind frame _ _ (Steps-map_err _ _ (Steps-execute frame _ (inserts _))) (λ _.
              Steps-bind frame _ _ (Steps-find_contact frame alias_id email)
                (Steps-or_disappeared frame)))))

  pub Steps-get_or_create_contact :
      ⦃u : Unicode⦄ (alias_id : Text) (address : EmailAddress) (name : Option Text)
      (prefix domain : Text)
      → Steps R (get_or_create_contact alias_id address name prefix domain)
  unfolding get_or_create_contact
  Steps-get_or_create_contact alias_id address name prefix domain =
      Steps-bind frame _ _ (Steps-find_contact frame alias_id _)
        (λ o. Steps-or_create frame o _ (Steps-create_contact alias_id _ name prefix domain))

insert_row-outbox :
    (c : Contact) (db : Db) {db' : Db} → insert_row c db ≡ ok db' → db'.outbox ≡ db.outbox
unfolding insert_row
insert_row-outbox c db h = ground arith

pub get_or_create_contact-KeepsQueue :
    ⦃u : Unicode⦄ (alias_id : Text) (address : EmailAddress) (name : Option Text)
    (prefix domain : Text)
    → Steps KeepsQueue (get_or_create_contact alias_id address name prefix domain)
get_or_create_contact-KeepsQueue =
    Steps-get_or_create_contact KeepsQueue-IsFrame
      (λ c w db h. record { outbox = insert_row-outbox c w.db h; spool = refl; clock = refl })
