-- ===== src/Smtp/Router/Closed/Growth.antt =====
-- What each part of a round adds to the tables: rows of the outbox for one address, and contacts.
use weiterleitung.Prelude.{
  ◌≡◌, refl, ◌∙◌, sym, ap, subst, List, [], ◌∷◌, ◌++◌, In, In-append_left, head, later, ok, arith,
  ◌⊎◌, inl, inr,
}
use weiterleitung.Text.{Text, Bytes}
use weiterleitung.Database.{Db, World, Mailbox, Contact, OutboxRow}
use weiterleitung.Database.Exec.{Exec, attempt}
use weiterleitung.Database.Frame.{
  Steps, IsFrame, Steps-bind, Steps-pure, Steps-attempt, Steps-execute, Steps-new_uuid, Steps-now,
  Steps-map_err,
}
use weiterleitung.Contact
use weiterleitung.Delivery.Queue.{NewOutboundMessage, enqueue, write_file, insert_row}
use weiterleitung.Delivery.Queue.Enqueue.{insert_row-eq-ok}
use weiterleitung.Smtp.Router.Quiet.{NoMail}

-- An address of a stored mailbox, or of a stored contact.
abbrev pub IsKnown : Db → Text → Type 0
IsKnown db to =
    ((m : Mailbox) × In m db.mailboxes × (m.email ≡ to))
    ⊎ ((c : Contact) × In c db.contacts × (c.email ≡ to))

pub record AllKnown (db : Db) : Type 0 where
  pub known : (r : OutboxRow) → In r db.outbox → IsKnown db r.message.envelope_to

-- No row is new but for the address `to`; contacts stay, and the mailboxes are the same.
pub record Adds (to : Text) (w v : World) : Type 0 where
  pub mailboxes : v.db.mailboxes ≡ w.db.mailboxes
  pub contacts : (c : Contact) → In c w.db.contacts → In c v.db.contacts
  pub rows : (r : OutboxRow) → In r v.db.outbox → In r w.db.outbox ⊎ (r.message.envelope_to ≡ to)

Adds-same : (to : Text) (w v : World) → v.db ≡ w.db → Adds to w v
Adds-same to w v e = record {
  mailboxes = ap (λ (d : Db). d.mailboxes) e;
  contacts = λ c h. subst (λ (d : Db). In c d.contacts) (sym e) h;
  rows = λ r h. inl (subst (λ (d : Db). In r d.outbox) e h);
}

pub Adds-IsFrame : (to : Text) → IsFrame (Adds to)
Adds-IsFrame to = record {
  same = λ w. Adds-same to w w refl;
  trans = λ a b c h k. record {
    mailboxes = k.mailboxes ∙ h.mailboxes;
    contacts = λ x i. k.contacts x (h.contacts x i);
    rows = λ r i. elim (k.rows r i) [ inl j ↦ h.rows r j | inr e ↦ inr e ];
  };
  faults = λ w fs. Adds-same to w _ refl;
  draw = λ w n. Adds-same to w _ refl;
}

NoMail-Adds : (to : Text) (w v : World) → NoMail w v → Adds to w v
NoMail-Adds to w v n = record {
  mailboxes = n.mailboxes;
  contacts = λ c h. subst (λ cs. In c cs) (sym n.contacts) h;
  rows = λ r h. inl (subst (λ rs. In r rs) n.outbox h);
}

pub Steps-quiet : {A : Type 0} (to : Text) (m : Exec Text A) → Steps NoMail m → Steps (Adds to) m
Steps-quiet to m s = record { at = λ w. NoMail-Adds to w _ (s.at w) }

IsKnown-Adds : (to a : Text) (w v : World) → Adds to w v → IsKnown w.db a → IsKnown v.db a
IsKnown-Adds to a w v s (inl (m, i, e)) = inl (m, subst (λ ms. In m ms) (sym s.mailboxes) i, e)
IsKnown-Adds to a w v s (inr (c, i, e)) = inr (c, s.contacts c i, e)

pub AllKnown-Adds :
    (to : Text) (w v : World) → IsKnown w.db to → Adds to w v → AllKnown w.db → AllKnown v.db
AllKnown-Adds to w v i s k = record {
  known = λ r h. elim (s.rows r h) [
    | inl old ↦ IsKnown-Adds to r.message.envelope_to w v s (k.known r old)
    | inr new ↦ subst (IsKnown v.db) (sym new) (IsKnown-Adds to to w v s i)
  ];
}

pub AllKnown-NoMail : (w v : World) → NoMail w v → AllKnown w.db → AllKnown v.db
AllKnown-NoMail w v n k = record {
  known = λ r h.
      let s = NoMail-Adds r.message.envelope_to w v n in
      IsKnown-Adds r.message.envelope_to r.message.envelope_to w v s
        (k.known r (subst (λ rs. In r rs) n.outbox h));
}

In-snoc : {x y : OutboxRow} (xs : List OutboxRow) → In x (xs ++ (y ∷ [])) → In x xs ⊎ (x ≡ y)
In-snoc [] (head q) = inr q
In-snoc [] (later h) = elim h [ ]
In-snoc (z ∷ zs) (head q) = inl (head q)
In-snoc (z ∷ zs) (later h) = elim (In-snoc zs h) [ inl i ↦ inl (later i) | inr e ↦ inr e ]

insert_row-Adds :
    (row : OutboxRow) (w : World) (db : Db)
    → insert_row row w.db ≡ ok db
    → Adds row.message.envelope_to w (record w { db = db })
insert_row-Adds row w db h =
    let (fresh, e) = insert_row-eq-ok row w.db h in
    record {
      mailboxes = ap (λ (d : Db). d.mailboxes) e;
      contacts = λ c i. subst (λ (d : Db). In c d.contacts) (sym e) i;
      rows = λ r i. elim (In-snoc w.db.outbox (subst (λ (d : Db). In r d.outbox) e i)) [
        | inl old ↦ inl old
        | inr q ↦ inr (ap (λ (x : OutboxRow). x.message.envelope_to) q)
      ];
    }

Steps-write_file : (to path : Text) (raw : Bytes) → Steps (Adds to) (write_file path raw)
unfolding write_file
Steps-write_file to path raw =
    Steps-bind (Adds-IsFrame to) attempt _ (Steps-attempt (Adds-IsFrame to))
      (λ _. record { at = λ w. Adds-same to w _ refl })

pub Steps-enqueue :
    (mail_dir : Text) (m : NewOutboundMessage) → Steps (Adds m.envelope_to) (enqueue mail_dir m)
unfolding enqueue
Steps-enqueue mail_dir m =
    let frame = Adds-IsFrame m.envelope_to in
    Steps-bind frame _ _ (Steps-map_err _ _ (Steps-attempt frame)) (λ _.
      Steps-bind frame _ _ (Steps-new_uuid frame) (λ id.
        Steps-bind frame _ _ (Steps-map_err _ _ (Steps-write_file m.envelope_to _ m.raw)) (λ _.
          Steps-bind frame _ _ (Steps-now frame) (λ time.
            Steps-bind frame _ _ (Steps-map_err _ _ (Steps-execute frame _ (insert_row-Adds _)))
              (λ _. Steps-pure frame _)))))

insert_row-contacts :
    (c : Contact) (db : Db) {db' : Db}
    → Contact.insert_row c db ≡ ok db'
    → (db'.contacts ≡ db.contacts) ⊎ (db'.contacts ≡ db.contacts ++ (c ∷ []))
unfolding Contact.insert_row
insert_row-contacts c db h = ground arith

pub Steps-insert_contact :
    (to : Text) (c : Contact) (w : World) (db : Db)
    → Contact.insert_row c w.db ≡ ok db
    → Adds to w (record w { db = db })
unfolding Contact.insert_row
Steps-insert_contact to c w db h = record {
  mailboxes = ground arith;
  contacts = λ k i. elim (insert_row-contacts c w.db h) [
    | inl e ↦ subst (λ cs. In k cs) (sym e) i
    | inr e ↦ subst (λ cs. In k cs) (sym e) (In-append_left (c ∷ []) i)
  ];
  rows = λ r i. inl (let e : db.outbox ≡ w.db.outbox = ground arith in subst (λ rs. In r rs) e i);
}
