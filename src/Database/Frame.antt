-- ===== src/Database/Frame.antt =====
-- How handlers are taken apart in proofs. `Steps R m` relates the world before `m` to the world
-- after it, whether `m` succeeds or fails, with a rule for each way to build a handler; the
-- inversion lemmas say what a handler that succeeds has done.
use weiterleitung.Prelude.{
  ℕ, ◌≡◌, refl, ap, subst, Bool, true, false, List, [], ◌∷◌, Result, ok, err, arith, if◌then◌else◌,
}
use weiterleitung.Text.{Text}
use weiterleitung.Database.{Db, World}
use weiterleitung.Database.Exec.{
  new_uuid, draw_byte, now, Exec, pure, fail, lift, gets, continue, ◌>>=◌, map_err, attempt,
  attempt_with, select, execute, store,
}

pub record Steps {E A : Type 0} (R : World → World → Type 0) (m : Exec E A) : Type 0 where
  pub at : (w : World) → R w (m w).1

-- What a relation needs for the rules: it composes, and holds of the changes that every handler
-- may make.
pub record IsFrame (R : World → World → Type 0) : Type 0 where
  pub same : (w : World) → R w w
  pub trans : (a b c : World) → R a b → R b c → R a c
  pub faults : (w : World) (fs : List Bool) → R w (record w { faults = fs })
  pub draw : (w : World) (n : ℕ) → R w (record w { drawn = n })

module _ {E A B : Type 0} where
  pub >>=-eq-ok :
      (m : Exec E A) (f : A → Exec E B) (w : World) {b : B} {v : World}
      → (m >>= f) w ≡ (ok b, v)
      → (a : A) × (u : World) × (m w ≡ (ok a, u)) × (f a u ≡ (ok b, v))
  unfolding ◌>>=◌
  >>=-eq-ok m f w {b} {v} h = from (m w) h
    where
      from :
          (r : Result E A × World)
          → continue r.0 f r.1 ≡ (ok b, v)
          → (a : A) × (u : World) × (r ≡ (ok a, u)) × (f a u ≡ (ok b, v))
      from (ok a, u) k = (a, u, refl, k)
      from (err e, u) k = cc

  -- Either half of a bind, with what its first handler has done.
  pub >>=-intro :
      (P : World → Type 0) (m : Exec E A) (f : A → Exec E B) (w : World)
      → ((a : A) (u : World) → m w ≡ (ok a, u) → P (f a u).1)
      → ((e : E) (u : World) → m w ≡ (err e, u) → P u)
      → P ((m >>= f) w).1
  unfolding ◌>>=◌
  >>=-intro P m f w h k = from (m w) refl
    where
      from : (r : Result E A × World) → m w ≡ r → P (continue r.0 f r.1).1
      from (ok a, u) q = h a u q
      from (err e, u) q = k e u q

module _ {E F A : Type 0} where
  pub map_err-eq-ok :
      (g : E → F) (m : Exec E A) (w : World) {a : A} {v : World}
      → map_err g m w ≡ (ok a, v)
      → m w ≡ (ok a, v)
  unfolding map_err
  map_err-eq-ok g m w {a} {v} h = ground arith

attempt_with-eq-ok :
    (fs : List Bool) (w : World) {a : Unit {0}} {v : World}
    → fs ≡ w.faults
    → attempt_with fs w ≡ (ok a, v)
    → (gs : List Bool) × (v ≡ record w { faults = gs })
attempt_with-eq-ok [] w e h = (w.faults, ground arith)
attempt_with-eq-ok (true ∷ fs) w e h = cc
attempt_with-eq-ok (false ∷ fs) w e h = (fs, ground arith)

pub attempt-eq-ok :
    (w : World) {a : Unit {0}} {v : World}
    → attempt w ≡ (ok a, v)
    → (gs : List Bool) × (v ≡ record w { faults = gs })
unfolding attempt
attempt-eq-ok w h = attempt_with-eq-ok w.faults w refl h

-- A query that succeeds returns what it asks for, and nothing has changed.
pub select-eq-ok :
    {A : Type 0} (q : Db → A) (w : World) {a : A} {v : World}
    → select q w ≡ (ok a, v)
    → (gs : List Bool) × (a ≡ q w.db) × (v ≡ record w { faults = gs })
unfolding select gets
select-eq-ok q w h =
    let (t, u, e, k) = >>=-eq-ok attempt _ w h in
    let (gs, f) = attempt-eq-ok w e in (gs, ground arith, ground arith)

store-eq-ok :
    (r : Result Text Db) (w : World) {a : Unit {0}} {v : World}
    → store r w ≡ (ok a, v)
    → (db : Db) × (r ≡ ok db) × (v ≡ record w { db = db })
store-eq-ok (ok db) w h = (db, refl, ground arith)
store-eq-ok (err e) w h = cc

-- A statement that succeeds was allowed by the constraints, and has changed the tables alone.
pub execute-eq-ok :
    (f : Db → Result Text Db) (w : World) {a : Unit {0}} {v : World}
    → execute f w ≡ (ok a, v)
    → (gs : List Bool) × (db : Db) × (f w.db ≡ ok db) × (v ≡ record w { db = db; faults = gs })
unfolding execute
execute-eq-ok f w h =
    let (t, u, e, k) = >>=-eq-ok attempt _ w h in
    let (gs, g) = attempt-eq-ok w e in
    let (db, r, s) = store-eq-ok (f u.db) u k in (gs, db, ground arith, ground arith)

module _ {E A : Type 0} {R : World → World → Type 0} (frame : IsFrame R) where
  pub Steps-pure : (a : A) → Steps R (pure {E = E} a)
  unfolding pure
  Steps-pure a = record { at = frame.same }

  pub Steps-fail : (e : E) → Steps R (fail {A = A} e)
  unfolding fail
  Steps-fail e = record { at = frame.same }

  pub Steps-lift : (r : Result E A) → Steps R (lift r)
  unfolding lift
  Steps-lift r = record { at = frame.same }

  pub Steps-gets : (f : World → A) → Steps R (gets {E = E} f)
  unfolding gets
  Steps-gets f = record { at = frame.same }

  pub Steps-if : (b : Bool) (m n : Exec E A) → Steps R m → Steps R n → Steps R (if b then m else n)
  Steps-if true m n h k = h
  Steps-if false m n h k = k

module _ {E A B : Type 0} {R : World → World → Type 0} (frame : IsFrame R) where
  pub Steps-bind :
      (m : Exec E A) (f : A → Exec E B) → Steps R m → ((a : A) → Steps R (f a)) → Steps R (m >>= f)
  unfolding ◌>>=◌
  Steps-bind m f h k = record { at = λ w. from w (m w) (h.at w) }
    where
      from : (w : World) (r : Result E A × World) → R w r.1 → R w (continue r.0 f r.1).1
      from w (ok a, u) s = frame.trans w u _ s ((k a).at u)
      from w (err e, u) s = s

module _ {E F A : Type 0} {R : World → World → Type 0} where
  pub Steps-map_err : (g : E → F) (m : Exec E A) → Steps R m → Steps R (map_err g m)
  unfolding map_err
  Steps-map_err g m h = record { at = h.at }

module _ {R : World → World → Type 0} (frame : IsFrame R) where
  attempt_with-frame : (fs : List Bool) (w : World) → R w (attempt_with fs w).1
  attempt_with-frame [] w = frame.same w
  attempt_with-frame (true ∷ fs) w = frame.faults w fs
  attempt_with-frame (false ∷ fs) w = frame.faults w fs

  pub Steps-attempt : Steps R attempt
  unfolding attempt
  Steps-attempt = record { at = λ w. attempt_with-frame w.faults w }

module _ {A : Type 0} {R : World → World → Type 0} (frame : IsFrame R) where
  pub Steps-select : (q : Db → A) → Steps R (select q)
  unfolding select
  Steps-select q = Steps-bind frame attempt _ (Steps-attempt frame) (λ _. Steps-gets frame _)

module _ {R : World → World → Type 0} (frame : IsFrame R) where
  store-frame :
      (r : Result Text Db) (w : World)
      → ((db : Db) → r ≡ ok db → R w (record w { db = db }))
      → R w (store r w).1
  store-frame (ok db) w h = h db refl
  store-frame (err e) w h = frame.same w

  pub Steps-execute :
      (f : Db → Result Text Db)
      → ((w : World) (db : Db) → f w.db ≡ ok db → R w (record w { db = db }))
      → Steps R (execute f)
  unfolding execute
  Steps-execute f h =
      Steps-bind frame attempt _ (Steps-attempt frame)
        (λ _. record { at = λ w. store-frame (f w.db) w (h w) })

  pub Steps-new_uuid : {E : Type 0} → Steps R (new_uuid {E = E})
  unfolding new_uuid
  Steps-new_uuid = record { at = λ w. frame.draw w _ }

  pub Steps-draw_byte : {E : Type 0} → Steps R (draw_byte {E = E})
  unfolding draw_byte
  Steps-draw_byte = record { at = λ w. frame.draw w _ }

  pub Steps-now : {E : Type 0} → Steps R (now {E = E})
  unfolding now
  Steps-now = Steps-gets frame _

-- What holds after a statement that writes: after its change, and where it is refused or fails.
pub execute-intro :
    (P : World → Type 0) (f : Db → Result Text Db) (w : World)
    → ((fs : List Bool) (db : Db) → f w.db ≡ ok db → P (record w { db = db; faults = fs }))
    → ((fs : List Bool) → P (record w { faults = fs }))
    → P (execute f w).1
unfolding execute attempt ◌>>=◌
execute-intro P f w h k = run w.faults
  where
    stored :
        (r : Result Text Db)
        → f w.db ≡ r
        → (fs : List Bool) → P (store r (record w { faults = fs })).1
    stored (ok db) e fs = h fs db e
    stored (err x) e fs = k fs

    run :
        (fs : List Bool)
        → P (continue (attempt_with fs w).0 (λ _ v. store (f v.db) v) (attempt_with fs w).1).1
    run [] = stored (f w.db) refl w.faults
    run (true ∷ fs) = k fs
    run (false ∷ fs) = stored (f w.db) refl fs

-- The relation at a run whose outcome is known.
pub Steps-run :
    {E A : Type 0} {R : World → World → Type 0} {m : Exec E A}
    → Steps R m
    → (w : World) {x : Result E A} {v : World} → m w ≡ (x, v)
    → R w v
Steps-run {R} s w h = subst (R w) (ap (λ p. p.1) h) (s.at w)
