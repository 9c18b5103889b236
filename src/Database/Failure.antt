-- ===== src/Database/Failure.antt =====
-- How a handler fails: the inversion lemmas of errors, and that the database and the file system fail
-- only where the environment says so.
use weiterleitung.Prelude.{
  ◌≡◌, refl, subst, ◌⊎◌, inl, inr, Bool, true, false, List, [], ◌∷◌, In, head, later, Result, ok,
  err, arith,
}
use weiterleitung.Text.{Text}
use weiterleitung.Database.{Db, World}
use weiterleitung.Database.Exec.{
  Exec, gets, replace, continue, ◌>>=◌, map_err, attempt, attempt_with, select,
}
use weiterleitung.Database.Frame.{>>=-eq-ok}

pub >>=-eq-err :
    {E A B : Type 0} (m : Exec E A) (f : A → Exec E B) (w : World) {e : E} {v : World}
    → (m >>= f) w ≡ (err e, v)
    → (m w ≡ (err e, v)) ⊎ ((a : A) × (u : World) × (m w ≡ (ok a, u)) × (f a u ≡ (err e, v)))
unfolding ◌>>=◌
>>=-eq-err {E} {A} {B} m f w {e} {v} h = from (m w) h
  where
    from :
        (r : Result E A × World)
        → continue r.0 f r.1 ≡ (err e, v)
        → (r ≡ (err e, v)) ⊎ ((a : A) × (u : World) × (r ≡ (ok a, u)) × (f a u ≡ (err e, v)))
    from (ok a, u) k = inr (a, u, refl, k)
    from (err x, u) k = inl (ground arith)

pub map_err-eq-err :
    {E F A : Type 0} (g : E → F) (m : Exec E A) (w : World) {e : F} {v : World}
    → map_err g m w ≡ (err e, v)
    → (x : E) × (m w ≡ (err x, v)) × (e ≡ g x)
unfolding map_err
map_err-eq-err {E} {F} {A} g m w {e} {v} h = from (m w) h
  where
    from :
        (r : Result E A × World)
        → ◌≡◌ {A = Result F A × World} (replace g r.0, r.1) (err e, v)
        → (x : E) × (r ≡ (err x, v)) × (e ≡ g x)
    from (ok a, u) k = cc
    from (err x, u) k = (x, ground arith, ground arith)

pub attempt_with-fault :
    (fs : List Bool) (w : World) {e : Text} {v : World}
    → attempt_with fs w ≡ (err e, v)
    → In true fs
attempt_with-fault [] w h = cc
attempt_with-fault (true ∷ fs) w h = head refl
attempt_with-fault (false ∷ fs) w h = cc

pub attempt_with-later :
    (fs : List Bool) (w : World) {t : Unit {0}} {v : World}
    → fs ≡ w.faults
    → attempt_with fs w ≡ (ok t, v)
    → In true v.faults
    → In true fs
attempt_with-later [] w q h m = subst (In true) (ground arith) m
attempt_with-later (true ∷ fs) w q h m = cc
attempt_with-later (false ∷ fs) w q h m = later (subst (In true) (ground arith) m)

pub select-fault :
    {A : Type 0} (q : Db → A) (w : World) {e : Text} {v : World}
    → select q w ≡ (err e, v)
    → In true w.faults
unfolding select gets attempt
select-fault q w h = elim (>>=-eq-err attempt _ w h) [
  | inl k ↦ attempt_with-fault w.faults w k
  | inr (t, u, k, m) ↦ cc
]

pub select_later :
    {A : Type 0} (q : Db → A) (w : World) {a : A} {v : World}
    → select q w ≡ (ok a, v)
    → In true v.faults
    → In true w.faults
unfolding select gets attempt
select_later q w {a} {v} h m =
    let (t, u, e, k) = >>=-eq-ok attempt _ w h in
    let p : v ≡ u = ground arith in
    attempt_with-later w.faults w refl e (subst (λ (x : World). In true x.faults) p m)
