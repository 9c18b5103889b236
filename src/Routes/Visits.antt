-- ===== src/Routes/Visits.antt =====
-- How pages are taken apart in proofs. `Rests R m` relates the visit before a page to the visit after
-- it, however the page ends, with a rule for each way to build a page.
use weiterleitung.Prelude.{Result, ok, err}
use weiterleitung.Database.Exec.{Exec}
use weiterleitung.WebTemplates.{Response}
use weiterleitung.Routes.{Visit, Page, give, leave, outcome, call, in_session, proceed, ◌>>=◌}

pub record Rests {S A : Type 0} (R : Visit S → Visit S → Type 0) (m : Page S A) : Type 0 where
  pub at : (v : Visit S) → R v (m v).1

pub record IsOrder {S : Type 0} (R : Visit S → Visit S → Type 0) : Type 0 where
  pub same : (v : Visit S) → R v v
  pub trans : (a b c : Visit S) → R a b → R b c → R a c

module _ {S A : Type 0} {R : Visit S → Visit S → Type 0} (order : IsOrder R) where
  pub Rests-give : (a : A) → Rests R (give a)
  unfolding give
  Rests-give a = record { at = λ v. order.same v }

  pub Rests-leave : (r : Response) → Rests R (leave {A = A} r)
  unfolding leave
  Rests-leave r = record { at = λ v. order.same v }

module _ {S A : Type 0} {R : Visit S → Visit S → Type 0} where
  pub Rests-outcome :
      {E : Type 0} (m : Exec E A)
      → ((v : Visit S) → R v (record { session = v.session; world = (m v.world).1 }))
      → Rests R (outcome m)
  unfolding outcome
  Rests-outcome m h = record { at = h }

  pub Rests-call :
      (m : Exec Response A)
      → ((v : Visit S) → R v (record { session = v.session; world = (m v.world).1 }))
      → Rests R (call m)
  unfolding call
  Rests-call m h = record { at = h }

  pub Rests-in_session :
      (f : S → A × S)
      → ((v : Visit S) → R v (record { session = (f v.session).1; world = v.world }))
      → Rests R (in_session f)
  unfolding in_session
  Rests-in_session f h = record { at = h }

module _ {S A B : Type 0} {R : Visit S → Visit S → Type 0} (order : IsOrder R) where
  pub Rests-bind :
      (m : Page S A) (f : A → Page S B) → Rests R m → ((a : A) → Rests R (f a)) → Rests R (m >>= f)
  unfolding ◌>>=◌
  Rests-bind m f h k = record { at = λ v. from v (m v) (h.at v) }
    where
      from : (v : Visit S) (r : Result Response A × Visit S) → R v r.1 → R v (proceed r.0 f r.1).1
      from v (ok a, u) s = order.trans v u _ s ((k a).at u)
      from v (err e, u) s = s
