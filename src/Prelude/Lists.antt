-- ===== src/Prelude/Lists.antt =====
-- Lists measured by native numbers, and Boolean quantifiers that compute.
use Prim.Native.Nat.{ℕ, zero, suc, ◌+◌}
use mathlib.Core.Path.{◌≡◌, refl, ap}
use mathlib.Core.Bool.{Bool, true, false, ◌&&◌, ◌||◌}
use mathlib.Core.List.{List, [], ◌∷◌, ◌++◌, map}
use mathlib.Core.Logic.{inl, inr}
use mathlib.Core.Option.{Option, none, some}
use native.Mathlib.Omega.{arith}
use weiterleitung.Prelude.Tests.{if◌then◌else◌, Bool-cases}

module _ {ℓ} {A : Type ℓ} where
  abbrev pub length : List A → ℕ
  length [] = 0
  length (x ∷ xs) = suc (length xs)

  pub length-append : (xs ys : List A) → length (xs ++ ys) ≡ length xs + length ys
  length-append [] ys = omega arith
  length-append (x ∷ xs) ys = omega (arith, length-append xs ys)

  abbrev pub take : ℕ → List A → List A
  take zero xs = []
  take (suc n) [] = []
  take (suc n) (x ∷ xs) = x ∷ take n xs

  abbrev pub drop : ℕ → List A → List A
  drop zero xs = xs
  drop (suc n) [] = []
  drop (suc n) (x ∷ xs) = drop n xs

  abbrev pub is_empty : List A → Bool
  is_empty [] = true
  is_empty (x ∷ xs) = false

  unfoldable pub all : (A → Bool) → List A → Bool
  all p [] = true
  all p (x ∷ xs) = p x && all p xs

  unfoldable pub any : (A → Bool) → List A → Bool
  any p [] = false
  any p (x ∷ xs) = p x || any p xs

  unfoldable pub keep : (A → Bool) → List A → List A
  keep p [] = []
  keep p (x ∷ xs) = let rest = keep p xs in if p x then x ∷ rest else rest

  unfoldable pub find : (A → Bool) → List A → Option A
  find p [] = none
  find p (x ∷ xs) = if p x then some x else find p xs

  -- `P` holds of every element.
  abbrev pub All {κ} : (A → Type κ) → List A → Type κ
  All P [] = Unit
  All P (x ∷ xs) = P x × All P xs

  -- `x` is an element, with the place where it stands.
  pub data In (x : A) : List A → Type ℓ where
    head : {y : A} {ys : List A} → x ≡ y → In x (y ∷ ys)
    later : {y : A} {ys : List A} → In x ys → In x (y ∷ ys)

module _ {ℓ} {A : Type ℓ} where
  pub all-append : (p : A → Bool) (xs ys : List A) → all p (xs ++ ys) ≡ (all p xs && all p ys)
  unfolding all
  all-append p [] ys = refl
  all-append p (x ∷ xs) ys = ground (arith, all-append p xs ys)

  pub all-uncons :
      (p : A → Bool) (x : A) (xs : List A)
      → all p (x ∷ xs) ≡ true
      → (p x ≡ true) × (all p xs ≡ true)
  unfolding all
  all-uncons p x xs h = ground arith

  pub all-cons :
      (p : A → Bool) (x : A) (xs : List A) → p x ≡ true → all p xs ≡ true → all p (x ∷ xs) ≡ true
  unfolding all
  all-cons p x xs h k = ground arith

  pub All-append {κ} : (P : A → Type κ) (xs ys : List A) → All P xs → All P ys → All P (xs ++ ys)
  All-append P [] ys h k = k
  All-append P (x ∷ xs) ys h k = (h.0, All-append P xs ys h.1 k)

  pub All-In {κ} : (P : A → Type κ) {x : A} (xs : List A) → All P xs → In x xs → P x
  All-In P [] h m = elim m [ ]
  All-In P (y ∷ ys) h (head e) = rw e h.0
  All-In P (y ∷ ys) h (later m) = All-In P ys h.1 m

  -- What a search returns satisfies its test and stands in the list.
  pub find_sound :
      (p : A → Bool) (xs : List A) {x : A} → find p xs ≡ some x → (p x ≡ true) × In x xs
  unfolding find
  find_sound p [] h = cc
  find_sound p (y ∷ ys) {x} h = elim (Bool-cases (p y)) [
    | inl e ↦ let q : some y ≡ some x = rw e at h in (ground (arith), head (ground arith))
    | inr e ↦
        let rest : find p ys ≡ some x = rw e at h in
        let r = find_sound p ys rest in (r.0, later r.1)
  ]

  pub keep-In : (p : A → Bool) (xs : List A) {x : A} → In x (keep p xs) → In x xs × (p x ≡ true)
  unfolding keep
  keep-In p [] m = elim m [ ]
  keep-In p (y ∷ ys) {x} m = elim (Bool-cases (p y)) [
    | inl e ↦ kept e (rw e at m) (λ k. keep-In p ys k)
    | inr e ↦ let (i, h) = keep-In p ys (rw e at m) in (later i, h)
  ]
    where
      kept :
          p y ≡ true
          → In x (y ∷ keep p ys)
          → (In x (keep p ys) → In x ys × (p x ≡ true))
          → In x (y ∷ ys) × (p x ≡ true)
      kept e (head q) f = (head q, rw q e)
      kept e (later k) f = let (i, h) = f k in (later i, h)

  pub In-keep : (p : A → Bool) (xs : List A) {x : A} → In x xs → p x ≡ true → In x (keep p xs)
  unfolding keep
  In-keep p [] m h = m
  In-keep p (y ∷ ys) (head q) h = let e : p y ≡ true = rw q at h in rw e (head q)
  In-keep p (y ∷ ys) (later m) h = elim (Bool-cases (p y)) [
    | inl e ↦ rw e (later (In-keep p ys m h))
    | inr e ↦ rw e (In-keep p ys m h)
  ]

  pub In-append_left : {x : A} {xs : List A} (ys : List A) → In x xs → In x (xs ++ ys)
  In-append_left ys (head e) = head e
  In-append_left ys (later m) = later (In-append_left ys m)

  pub In-append_right : {x : A} (xs : List A) {ys : List A} → In x ys → In x (xs ++ ys)
  In-append_right [] m = m
  In-append_right (y ∷ ys) m = later (In-append_right ys m)

module _ {ℓ κ} {A : Type ℓ} {B : Type κ} where
  pub length-map : (f : A → B) (xs : List A) → length (map f xs) ≡ length xs
  length-map f [] = refl
  length-map f (x ∷ xs) = ap suc (length-map f xs)

  pub In-map : (f : A → B) {x : A} (xs : List A) → In x xs → In (f x) (map f xs)
  In-map f [] m = elim m [ ]
  In-map f (y ∷ ys) (head q) = head (ap f q)
  In-map f (y ∷ ys) (later m) = later (In-map f ys m)
