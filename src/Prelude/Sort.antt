-- ===== src/Prelude/Sort.antt =====
-- A stable sort, for `ORDER BY` and `sort_by_key`, with what the program's theorems need of it.
use Prim.Native.Nat.{ℕ, zero, suc}
use mathlib.Core.Path.{◌≡◌, refl, ap}
use mathlib.Core.Bool.{Bool, true, false}
use mathlib.Core.Logic.{◌⊎◌, inl, inr}
use mathlib.Core.List.{List, [], ◌∷◌}
use weiterleitung.Prelude.Tests.{if◌then◌else◌, Bool-cases}
use weiterleitung.Prelude.Lists.{length, take, In, head, later}

module _ {ℓ} {A : Type ℓ} (le : A → A → Bool) where
  unfoldable pub insert_by : A → List A → List A
  insert_by x [] = x ∷ []
  insert_by x (y ∷ ys) = if le x y then x ∷ y ∷ ys else y ∷ insert_by x ys

  unfoldable pub sort_by : List A → List A
  unfolding insert_by
  sort_by [] = []
  sort_by (x ∷ xs) = insert_by x (sort_by xs)

  -- `x` comes before all of the list.
  abbrev pub Before : A → List A → Type 0
  Before x [] = Unit
  Before x (y ∷ ys) = (le x y ≡ true) × Before x ys

  abbrev pub IsSorted : List A → Type 0
  IsSorted [] = Unit
  IsSorted (x ∷ xs) = Before x xs × IsSorted xs

module _ {ℓ} {A : Type ℓ} (le : A → A → Bool) where
  In-insert_by_head : (x : A) (ys : List A) → In x (insert_by le x ys)
  unfolding insert_by
  In-insert_by_head x [] = head refl
  In-insert_by_head x (y ∷ ys) = elim (Bool-cases (le x y)) [
    | inl e ↦ rw e (head refl)
    | inr e ↦ rw e (later (In-insert_by_head x ys))
  ]

  In-insert_by : {z : A} (x : A) (ys : List A) → In z ys → In z (insert_by le x ys)
  unfolding insert_by
  In-insert_by x [] m = elim m [ ]
  In-insert_by x (y ∷ ys) (head q) = elim (Bool-cases (le x y)) [
    | inl e ↦ rw e (later (head q))
    | inr e ↦ rw e (head q)
  ]
  In-insert_by x (y ∷ ys) (later m) = elim (Bool-cases (le x y)) [
    | inl e ↦ rw e (later (later m))
    | inr e ↦ rw e (later (In-insert_by x ys m))
  ]

  insert_by-In : {z : A} (x : A) (ys : List A) → In z (insert_by le x ys) → (z ≡ x) ⊎ In z ys
  unfolding insert_by
  insert_by-In x [] (head q) = inl q
  insert_by-In x [] (later m) = inr m
  insert_by-In {z} x (y ∷ ys) m = elim (Bool-cases (le x y)) [
    | inl e ↦ split (rw e at m)
    | inr e ↦ skip (rw e at m) (λ k. insert_by-In x ys k)
  ]
    where
      split : In z (x ∷ y ∷ ys) → (z ≡ x) ⊎ In z (y ∷ ys)
      split (head q) = inl q
      split (later k) = inr k

      skip :
          In z (y ∷ insert_by le x ys)
          → (In z (insert_by le x ys) → (z ≡ x) ⊎ In z ys)
          → (z ≡ x) ⊎ In z (y ∷ ys)
      skip (head q) f = inr (head q)
      skip (later k) f = elim (f k) [ inl q ↦ inl q | inr r ↦ inr (later r) ]

  pub In-sort_by : {z : A} (xs : List A) → In z xs → In z (sort_by le xs)
  unfolding sort_by
  In-sort_by [] m = m
  In-sort_by (x ∷ xs) (head q) = rw q (In-insert_by_head x (sort_by le xs))
  In-sort_by (x ∷ xs) (later m) = In-insert_by x (sort_by le xs) (In-sort_by xs m)

  pub sort_by-In : {z : A} (xs : List A) → In z (sort_by le xs) → In z xs
  unfolding sort_by
  sort_by-In [] m = m
  sort_by-In (x ∷ xs) m = elim (insert_by-In x (sort_by le xs) m) [
    | inl q ↦ head q
    | inr k ↦ later (sort_by-In xs k)
  ]

module _ {ℓ} {A : Type ℓ} (le : A → A → Bool) (total : (x y : A) → le x y ≡ false → le y x ≡ true)
    (trans : (x y z : A) → le x y ≡ true → le y z ≡ true → le x z ≡ true) where
  Before-trans : (x y : A) (ys : List A) → le x y ≡ true → Before le y ys → Before le x ys
  Before-trans x y [] h b = tt
  Before-trans x y (z ∷ zs) h b = (trans x y z h b.0, Before-trans x y zs h b.1)

  Before-insert_by :
      (y x : A) (ys : List A) → le y x ≡ true → Before le y ys → Before le y (insert_by le x ys)
  unfolding insert_by
  Before-insert_by y x [] h b = (h, tt)
  Before-insert_by y x (z ∷ zs) h b = elim (Bool-cases (le x z)) [
    | inl e ↦ rw e (h, b)
    | inr e ↦ rw e (b.0, Before-insert_by y x zs h b.1)
  ]

  insert_by-IsSorted : (x : A) (ys : List A) → IsSorted le ys → IsSorted le (insert_by le x ys)
  unfolding insert_by
  insert_by-IsSorted x [] s = (tt, tt)
  insert_by-IsSorted x (y ∷ ys) s = elim (Bool-cases (le x y)) [
    | inl e ↦ rw e ((e, Before-trans x y ys e s.0), s)
    | inr e ↦ rw e (Before-insert_by y x ys (total x y e) s.0, insert_by-IsSorted x ys s.1)
  ]

  pub sort_by-IsSorted : (xs : List A) → IsSorted le (sort_by le xs)
  unfolding sort_by
  sort_by-IsSorted [] = tt
  sort_by-IsSorted (x ∷ xs) = insert_by-IsSorted x (sort_by le xs) (sort_by-IsSorted xs)

module _ {ℓ} {A : Type ℓ} where
  pub take-In : {z : A} (n : ℕ) (xs : List A) → In z (take n xs) → In z xs
  take-In zero xs m = elim m [ ]
  take-In (suc n) [] m = m
  take-In (suc n) (x ∷ xs) (head q) = head q
  take-In (suc n) (x ∷ xs) (later m) = later (take-In n xs m)

  pub Before-In :
      (le : A → A → Bool) (x : A) {z : A} (xs : List A) → Before le x xs → In z xs → le x z ≡ true
  Before-In le x [] b m = elim m [ ]
  Before-In le x (y ∷ ys) b (head q) = rw q b.0
  Before-In le x (y ∷ ys) b (later m) = Before-In le x ys b.1 m

  -- Of a sorted list, what `take` leaves out comes after all that it takes, and it takes `n`.
  pub take-sorted :
      (le : A → A → Bool) {z : A} (n : ℕ) (xs : List A)
      → IsSorted le xs
      → In z xs
      → In z (take n xs) ⊎ ((length (take n xs) ≡ n) × ((y : A) → In y (take n xs) → le y z ≡ true))
  take-sorted le zero xs s m = inr (refl, λ y k. elim k [ ])
  take-sorted le (suc n) [] s m = inl m
  take-sorted le (suc n) (x ∷ xs) s (head q) = inl (head q)
  take-sorted le {z} (suc n) (x ∷ xs) s (later m) = elim (take-sorted le n xs s.1 m) [
    | inl k ↦ inl (later k)
    | inr (e, after) ↦ inr (ap suc e, λ y k. first y k after)
  ]
    where
      first :
          (y : A)
          → In y (x ∷ take n xs)
          → ((y : A) → In y (take n xs) → le y z ≡ true)
          → le y z ≡ true
      first y (head q) f = rw q (Before-In le x xs s.0 m)
      first y (later k) f = f y k
