-- ===== src/Delivery/Queue/Enqueue.antt =====
-- What `enqueue` leaves behind: one pending row, due at once, and the raw message in the spool.
use weiterleitung.Prelude.{
  ◌≡◌, ap, subst, ◌+◌, ◌∙◌, ◌++◌, any, Bool, ◌&&◌, false, List, [], ◌∷◌, ok, arith, Bool-cases, inl,
  inr,
}
use weiterleitung.Text.{Text, Bytes}
use weiterleitung.Database.{Db, World, OutboxRow}
use weiterleitung.Database.Schema.{linked, has_alias_id, has_contact_id}
use weiterleitung.Database.Exec.{Exec, pure, ◌>>=◌, attempt, execute}
use weiterleitung.Database.Frame.{>>=-eq-ok}
use weiterleitung.Database.Run.{unmap_ok, attempt_ok, execute_ok, new_uuid_ok, now_ok, pure_ok}
use weiterleitung.Delivery.Queue.{
  NewOutboundMessage, write_file, spool_path, insert_row, new_row, has_id, enqueue,
}

pub record IsEnqueued (mail_dir : Text) (m : NewOutboundMessage) (id : Text) (w v : World)
    : Type 0 where
  pub fresh : any (has_id id) w.db.outbox ≡ false
  pub outbox : v.db.outbox ≡ w.db.outbox ++ (new_row m id (spool_path mail_dir id) w.clock ∷ [])
  pub spool : v.spool ≡ (spool_path mail_dir id, m.raw) ∷ w.spool
  pub aliases : v.db.aliases ≡ w.db.aliases
  pub mailboxes : v.db.mailboxes ≡ w.db.mailboxes
  pub contacts : v.db.contacts ≡ w.db.contacts

-- The keys of the row are those of rows of the other tables.
abbrev pub refers : Db → OutboxRow → Bool
refers db r =
    linked (has_alias_id db) r.message.alias_id && linked (has_contact_id db) r.message.contact_id

pub insert_row-eq-ok :
    (r : OutboxRow) (db : Db) {db' : Db}
    → insert_row r db ≡ ok db'
    → (any (has_id r.message.message_id) db.outbox ≡ false)
      × (db' ≡ record db { outbox = db.outbox ++ (r ∷ []) })
unfolding insert_row
insert_row-eq-ok r db h = elim (Bool-cases (any (has_id r.message.message_id) db.outbox)) [
  | inl e ↦ ground arith
  | inr e ↦ elim (Bool-cases (refers db r)) [ inl k ↦ ground arith | inr k ↦ ground arith ]
]

write_file_ok :
    {B : Type 0} {b : B} {v : World} (path : Text) (raw : Bytes) (f : Unit {0} → Exec Text B)
    (w : World)
    → (write_file path raw >>= f) w ≡ (ok b, v)
    → (gs : List Bool) × (f tt (record w { spool = (path, raw) ∷ w.spool; faults = gs })
        ≡ (ok b, v))
unfolding write_file
write_file_ok path raw f w h =
    let (t, u, e, k) = >>=-eq-ok (write_file path raw) f w h in
    let (gs, s) = attempt_ok (λ _ w. (ok tt, record w { spool = (path, raw) ∷ w.spool })) w e in
    (gs, ap (f t) (ap (λ p. p.1) s) ∙ k)

-- The last part of `enqueue`: the insertion.
insert-IsEnqueued :
    (mail_dir : Text) (m : NewOutboundMessage) (id : Text) (w : World) {i : Text} {v : World}
    → (execute (insert_row (new_row m id (spool_path mail_dir id) w.clock)) >>= λ _. pure id) w
      ≡ (ok i, v)
    → (id ≡ i)
      × (any (has_id id) w.db.outbox ≡ false)
      × (v.db ≡ record w.db {
        outbox = w.db.outbox ++ (new_row m id (spool_path mail_dir id) w.clock ∷ []);
      })
      × (v.spool ≡ w.spool)
insert-IsEnqueued mail_dir m id w h =
    let (gs, db, r, k) =
      execute_ok (insert_row (new_row m id (spool_path mail_dir id) w.clock)) (λ _. pure id) w h in
    let (f, d) = insert_row-eq-ok (new_row m id (spool_path mail_dir id) w.clock) w.db r in
    let (q, p) = pure_ok id (record w { db = db; faults = gs }) k in
    (q, f, ap (λ (x : World). x.db) p ∙ d, ap (λ (x : World). x.spool) p)

-- Where a message is queued, the outbox has one row more, pending and due at once, under an
-- identifier that no other row had, its raw text stands in the spool under the path of the row,
-- and the aliases, the mailboxes and the contacts are the same.
pub enqueue-IsEnqueued :
    (mail_dir : Text) (m : NewOutboundMessage) (w : World) {id : Text} {v : World}
    → enqueue mail_dir m w ≡ (ok id, v)
    → IsEnqueued mail_dir m id w v
unfolding enqueue
enqueue-IsEnqueued mail_dir m w {id} {v} h =
    let (g1, h1) = attempt_ok _ w (unmap_ok _ attempt _ w h) in
    let h2 = new_uuid_ok _ (record w { faults = g1 }) h1 in
    let i = w.uuid w.drawn in
    let w2 : World = record w { faults = g1; drawn = w.drawn + 1 } in
    let (g3, h3) =
      write_file_ok (spool_path mail_dir i) m.raw _ w2
        (unmap_ok _ (write_file (spool_path mail_dir i) m.raw) _ w2 h2) in
    let w3 : World = record w2 { spool = (spool_path mail_dir i, m.raw) ∷ w.spool; faults = g3 } in
    let h4 =
      unmap_ok _ (execute (insert_row (new_row m i (spool_path mail_dir i) w.clock))) _ w3
        (now_ok _ w3 h3) in
    let (q, f, d, s) = insert-IsEnqueued mail_dir m i w3 h4 in
    subst (λ x. IsEnqueued mail_dir m x w v) q
      (record {
        fresh = f;
        outbox = ap (λ (x : Db). x.outbox) d;
        spool = s;
        aliases = ap (λ (x : Db). x.aliases) d;
        mailboxes = ap (λ (x : Db). x.mailboxes) d;
        contacts = ap (λ (x : Db). x.contacts) d;
      })
