-- ===== src/Consistency/Handlers.antt =====
-- The operations of every component keep the tables consistent.
use weiterleitung.Prelude.{
  ℕ, ◌+◌, ◌≡◌, refl, subst, Bool, List, [], ◌∷◌, Option, Result, ok, err, Bool-cases, inl, inr, leb,
}
use weiterleitung.Text.{Text, Bytes, Unicode}
use weiterleitung.Domain.EmailAddress.{EmailAddress}
use weiterleitung.Database.{Db, World, Alias, QueuedMessage, OutboxRow}
use weiterleitung.Database.Exec.{Exec, ◌>>=◌, execute, transaction, roll_back}
use weiterleitung.Database.Frame.{
  Steps, Steps-pure, Steps-lift, Steps-gets, Steps-bind, Steps-map_err, Steps-attempt, Steps-select,
  Steps-execute, Steps-new_uuid, Steps-now,
}
use weiterleitung.Alias
use weiterleitung.Alias.{
  AliasCounter, forwarded, replied, blocked, bump, insert_alias, set_alias_enabled, delete_alias,
  record_alias_activity,
}
use weiterleitung.Mailbox.{insert_mailbox, delete_mailbox}
use weiterleitung.Delivery.Queue
use weiterleitung.Delivery.Queue.{
  NewOutboundMessage, write_file, enqueue, set_sending, mark_sending, claim, claim_due,
  requeue_interrupted, mark_delivered, mark_attempt_failed, set_delivered, failure_update,
  set_failed, set_retry,
}
use weiterleitung.Authentication.Password.{
  PasswordHashing, draw_salt, compute_password_hash, seed_admin_user,
}
use weiterleitung.Consistency.{IsConsistent, Keeps, Keeps-IsFrame}
use weiterleitung.Consistency.Rows.{insert_alias-IsConsistent, ok_eq}
use weiterleitung.Consistency.Inserts.{insert_message-IsConsistent}
use weiterleitung.Consistency.Updates.{
  KeepsAlias, KeepsMessage, update_alias-IsConsistent, update_message-IsConsistent,
  requeue_rows-IsConsistent,
}
use weiterleitung.Consistency.Deletes.{delete_aliases-IsConsistent}
use weiterleitung.Consistency.Mailboxes.{insert_writes-Keeps, delete_mailbox-IsConsistent}
use weiterleitung.Consistency.Users.{upsert_row-IsConsistent}

-- The rules, for this relation.
pub step :
    {E A B : Type 0} {m : Exec E A} {f : A → Exec E B}
    → Steps Keeps m
    → ((a : A) → Steps Keeps (f a))
    → Steps Keeps (m >>= f)
step {E} {A} {B} {m} {f} h k = Steps-bind Keeps-IsFrame m f h k

pub writes :
    (f : Db → Result Text Db)
    → ((db d : Db) → f db ≡ ok d → IsConsistent db → IsConsistent d)
    → Steps Keeps (execute f)
writes f h = Steps-execute Keeps-IsFrame f (λ w db e c. h w.db db e c)

rolled_back :
    {A : Type 0} (db : Db) (r : Result Text A × World)
    → IsConsistent db
    → IsConsistent r.1.db
    → IsConsistent (roll_back db r).1.db
rolled_back db (ok a, w) c d = d
rolled_back db (err e, w) c d = c

pub transaction-Keeps : {A : Type 0} (m : Exec Text A) → Steps Keeps m → Steps Keeps (transaction m)
unfolding transaction
transaction-Keeps m h = record {
  at = λ w c. rolled_back w.db _ c (
      (step (Steps-attempt Keeps-IsFrame) (λ _.
          step h (λ _. step (Steps-attempt Keeps-IsFrame) (λ _. Steps-pure Keeps-IsFrame _)))).at
        w c);
}

pub insert_alias-Keeps :
    ⦃u : Unicode⦄ (address : EmailAddress) (mailbox_id : Text) (remark : Option Text)
    → Steps Keeps (insert_alias address mailbox_id remark)
unfolding insert_alias
insert_alias-Keeps address mailbox_id remark = step (Steps-new_uuid Keeps-IsFrame) (λ id.
    step (Steps-now Keeps-IsFrame) (λ time.
      step (Steps-map_err _ _ (writes _ (λ db d. insert_alias-IsConsistent _ db)))
        (λ _. Steps-pure Keeps-IsFrame _)))

update_alias-Keeps :
    (id : Text) (f : Alias → Alias) → KeepsAlias f → Steps Keeps (execute (Alias.update_row id f))
update_alias-Keeps id f k =
    writes _ (λ db d e c. subst IsConsistent (ok_eq e) (update_alias-IsConsistent id f db k c))

pub set_alias_enabled-Keeps :
    (id : Text) (enabled : Bool) → Steps Keeps (set_alias_enabled id enabled)
unfolding set_alias_enabled
set_alias_enabled-Keeps id enabled =
    update_alias-Keeps id _
      (record { alias_id = λ a. refl; address = λ a. refl; mailbox_id = λ a. refl })

bump-KeepsAlias : (counter : AliasCounter) (time : ℕ) → KeepsAlias (bump counter time)
unfolding bump
bump-KeepsAlias forwarded time = record {
  alias_id = λ a. refl;
  address = λ a. refl;
  mailbox_id = λ a. refl;
}
bump-KeepsAlias replied time = record {
  alias_id = λ a. refl;
  address = λ a. refl;
  mailbox_id = λ a. refl;
}
bump-KeepsAlias blocked time = record {
  alias_id = λ a. refl;
  address = λ a. refl;
  mailbox_id = λ a. refl;
}

pub record_alias_activity-Keeps :
    (id : Text) (counter : AliasCounter) → Steps Keeps (record_alias_activity id counter)
unfolding record_alias_activity
record_alias_activity-Keeps id counter =
    step (Steps-now Keeps-IsFrame) (λ time. update_alias-Keeps id _ (bump-KeepsAlias counter time))

pub delete_alias-Keeps : (id : Text) → Steps Keeps (delete_alias id)
unfolding delete_alias Alias.delete_row
delete_alias-Keeps id =
    writes _ (λ db d e c. subst IsConsistent (ok_eq e) (delete_aliases-IsConsistent _ db c))

pub insert_mailbox-Keeps :
    ⦃u : Unicode⦄ (email : EmailAddress) (is_default : Bool)
    → Steps Keeps (insert_mailbox email is_default)
unfolding insert_mailbox
insert_mailbox-Keeps email is_default = step (Steps-new_uuid Keeps-IsFrame) (λ id.
    step (Steps-now Keeps-IsFrame) (λ time.
      step (transaction-Keeps _ (insert_writes-Keeps _)) (λ _. Steps-pure Keeps-IsFrame _)))

pub delete_mailbox-Keeps : (id : Text) → Steps Keeps (delete_mailbox id)
unfolding delete_mailbox
delete_mailbox-Keeps id = writes _ (λ db d. delete_mailbox-IsConsistent id db)

write_file-Keeps : (path : Text) (raw : Bytes) → Steps Keeps (write_file path raw)
unfolding write_file
write_file-Keeps path raw = step (Steps-attempt Keeps-IsFrame) (λ _. record { at = λ w c. c })

pub enqueue-Keeps : (mail_dir : Text) (m : NewOutboundMessage) → Steps Keeps (enqueue mail_dir m)
unfolding enqueue
enqueue-Keeps mail_dir m = step (Steps-map_err _ _ (Steps-attempt Keeps-IsFrame)) (λ _.
    step (Steps-new_uuid Keeps-IsFrame) (λ id. step (Steps-map_err _ _ (write_file-Keeps _ _)) (λ _.
      step (Steps-now Keeps-IsFrame) (λ time.
        step (Steps-map_err _ _ (writes _ (λ db d. insert_message-IsConsistent _ db)))
          (λ _. Steps-pure Keeps-IsFrame _)))))

update_message-Keeps :
    (id : Text) (f : OutboxRow → OutboxRow)
    → KeepsMessage f
    → Steps Keeps (execute (Queue.update_row id f))
update_message-Keeps id f k =
    writes _ (λ db d e c. subst IsConsistent (ok_eq e) (update_message-IsConsistent id f db k c))

mark_sending-Keeps : (ms : List QueuedMessage) → Steps Keeps (mark_sending ms)
unfolding mark_sending
mark_sending-Keeps [] = Steps-pure Keeps-IsFrame _
mark_sending-Keeps (m ∷ ms) =
    step
      (update_message-Keeps _ set_sending
        (record { message_id = λ r. refl; alias_id = λ r. refl; contact_id = λ r. refl }))
      (λ _. mark_sending-Keeps ms)

pub claim_due-Keeps : (limit : ℕ) → Steps Keeps (claim_due limit)
unfolding claim_due claim
claim_due-Keeps limit = step (Steps-now Keeps-IsFrame) (λ time. transaction-Keeps _ (
    step (Steps-select Keeps-IsFrame _)
      (λ rows. step (mark_sending-Keeps _) (λ _. Steps-pure Keeps-IsFrame _))))

pub requeue_interrupted-Keeps : Steps Keeps requeue_interrupted
unfolding requeue_interrupted
requeue_interrupted-Keeps = step (Steps-now Keeps-IsFrame) (λ time.
    step (Steps-gets Keeps-IsFrame _) (λ n.
      step
        (writes _ (λ db d e c. subst IsConsistent (ok_eq e) (requeue_rows-IsConsistent time db c)))
        (λ _. Steps-pure Keeps-IsFrame _)))

pub mark_delivered-Keeps : (id : Text) → Steps Keeps (mark_delivered id)
unfolding mark_delivered
mark_delivered-Keeps id = step (Steps-now Keeps-IsFrame) (λ time.
    update_message-Keeps id _
      (record { message_id = λ r. refl; alias_id = λ r. refl; contact_id = λ r. refl }))

failure_update-KeepsMessage :
    (attempts max : ℕ) (e : Text) (time : ℕ) → KeepsMessage (failure_update attempts max e time)
unfolding failure_update
failure_update-KeepsMessage attempts max e time = elim (Bool-cases (leb max (attempts + 1))) [
  | inl h ↦ record {
    message_id = λ r. rw h refl;
    alias_id = λ r. rw h refl;
    contact_id = λ r. rw h refl;
  }
  | inr h ↦ record {
    message_id = λ r. rw h refl;
    alias_id = λ r. rw h refl;
    contact_id = λ r. rw h refl;
  }
]

pub mark_attempt_failed-Keeps :
    (id : Text) (attempts max : ℕ) (e : Text) → Steps Keeps (mark_attempt_failed id attempts max e)
unfolding mark_attempt_failed
mark_attempt_failed-Keeps id attempts max e =
    step (Steps-now Keeps-IsFrame)
      (λ time. update_message-Keeps id _ (failure_update-KeepsMessage attempts max e time))

draw_salt-Keeps : {E : Type 0} → Steps Keeps (draw_salt {E = E})
unfolding draw_salt
draw_salt-Keeps = record { at = λ w c. c }

pub seed_admin_user-Keeps :
    (hashing : PasswordHashing) (username password : Text)
    → Steps Keeps (seed_admin_user hashing username password)
unfolding seed_admin_user compute_password_hash
seed_admin_user-Keeps hashing username password =
    step (Steps-map_err _ _ (Steps-attempt Keeps-IsFrame)) (λ _.
      step (step draw_salt-Keeps (λ salt. Steps-lift Keeps-IsFrame _)) (λ h.
        step (Steps-new_uuid Keeps-IsFrame) (λ id.
          step (Steps-now Keeps-IsFrame)
            (λ time. Steps-map_err _ _ (writes _ (λ db d. upsert_row-IsConsistent _ db))))))
