-- ===== src/Database/Run.antt =====
-- The first step of a handler that succeeds, one rule for each primitive: what it returned, and
-- that the rest succeeds from the world that it left.
use weiterleitung.Prelude.{ℕ, ◌+◌, ◌≡◌, refl, ap, sym, ◌∙◌, Bool, List, Result, ok, err, arith}
use weiterleitung.Text.{Text}
use weiterleitung.Database.{Db, World}
use weiterleitung.Database.Exec.{
  Exec, pure, gets, lift, continue, ◌>>=◌, map_err, attempt, select, execute, now, new_uuid,
  replace,
}
use weiterleitung.Database.Frame.{>>=-eq-ok, attempt-eq-ok, select-eq-ok, execute-eq-ok}

module _ {A B : Type 0} {b : B} {v : World} where
  pub unmap_ok :
      (g : Text → Text) (m : Exec Text A) (f : A → Exec Text B) (w : World)
      → (map_err g m >>= f) w ≡ (ok b, v)
      → (m >>= f) w ≡ (ok b, v)
  unfolding ◌>>=◌ map_err
  unmap_ok g m f w h = from (m w) h
    where
      from :
          (r : Result Text A × World)
          → continue (replace g r.0) f r.1 ≡ (ok b, v)
          → continue r.0 f r.1 ≡ (ok b, v)
      from (ok a, u) k = k
      from (err e, u) k = cc

  pub select_ok :
      (q : Db → A) (f : A → Exec Text B) (w : World)
      → (select q >>= f) w ≡ (ok b, v)
      → (gs : List Bool) × (f (q w.db) (record w { faults = gs }) ≡ (ok b, v))
  select_ok q f w h =
      let (a, u, e, k) = >>=-eq-ok (select q) f w h in
      let (gs, p, s) = select-eq-ok q w e in
      (gs, sym (ap (λ x. f x (record w { faults = gs })) p) ∙ sym (ap (f a) s) ∙ k)

  pub lift_ok :
      (x : Result Text A) (f : A → Exec Text B) (w : World)
      → (lift x >>= f) w ≡ (ok b, v)
      → (a : A) × (x ≡ ok a) × (f a w ≡ (ok b, v))
  unfolding lift ◌>>=◌
  lift_ok (ok a) f w h = (a, refl, h)
  lift_ok (err e) f w h = cc

module _ {B : Type 0} {b : B} {v : World} where
  pub attempt_ok :
      (f : Unit {0} → Exec Text B) (w : World)
      → (attempt >>= f) w ≡ (ok b, v)
      → (gs : List Bool) × (f tt (record w { faults = gs }) ≡ (ok b, v))
  attempt_ok f w h =
      let (t, u, e, k) = >>=-eq-ok attempt f w h in
      let (gs, s) = attempt-eq-ok w e in (gs, sym (ap (f t) s) ∙ k)

  pub execute_ok :
      (g : Db → Result Text Db) (f : Unit {0} → Exec Text B) (w : World)
      → (execute g >>= f) w ≡ (ok b, v)
      → (gs : List Bool) × (db : Db) × (g w.db ≡ ok db)
        × (f tt (record w { db = db; faults = gs }) ≡ (ok b, v))
  execute_ok g f w h =
      let (t, u, e, k) = >>=-eq-ok (execute g) f w h in
      let (gs, db, r, s) = execute-eq-ok g w e in (gs, db, r, sym (ap (f t) s) ∙ k)

  pub new_uuid_ok :
      (f : Text → Exec Text B) (w : World)
      → (new_uuid >>= f) w ≡ (ok b, v)
      → f (w.uuid w.drawn) (record w { drawn = w.drawn + 1 }) ≡ (ok b, v)
  unfolding new_uuid ◌>>=◌
  new_uuid_ok f w h = h

  pub now_ok :
      (f : ℕ → Exec Text B) (w : World) → (now >>= f) w ≡ (ok b, v) → f w.clock w ≡ (ok b, v)
  unfolding now gets ◌>>=◌
  now_ok f w h = h

  pub pure_ok : (a : B) (w : World) → pure {E = Text} a w ≡ (ok b, v) → (a ≡ b) × (v ≡ w)
  unfolding pure
  pure_ok a w h = ground arith
