-- ===== src/Prelude/Unique.antt =====
-- Keys of lists: uniqueness as a test, and what the statements of SQL do to it.
use mathlib.Core.Path.{◌≡◌, refl, ◌∙◌}
use mathlib.Core.Bool.{Bool, true, false, not, ◌&&◌, ◌||◌}
use mathlib.Core.List.{List, [], ◌∷◌, ◌++◌, map}
use mathlib.Core.Logic.{inl, inr}
use native.Mathlib.Omega.{arith}
use weiterleitung.Prelude.Tests.{Bool-cases}
use weiterleitung.Prelude.Lists.{all, any, keep, In, head, later}

-- No two elements are the same, where `same` tells.
unfoldable pub unique : {A : Type 0} → (A → A → Bool) → List A → Bool
unfolding any
unique same [] = true
unique same (x ∷ xs) = not (any (same x) xs) && unique same xs

module _ {A : Type 0} where
  pub any-append : (p : A → Bool) (xs ys : List A) → any p (xs ++ ys) ≡ (any p xs || any p ys)
  unfolding any
  any-append p [] ys = refl
  any-append p (x ∷ xs) ys = ground (arith, any-append p xs ys)

  pub any-or :
      (p q : A → Bool) (xs : List A)
      → any (λ x. p x || q x) xs ≡ false
      → (any p xs ≡ false) × (any q xs ≡ false)
  unfolding any
  any-or p q [] h = (refl, refl)
  any-or p q (x ∷ xs) h = let (a, b) = any-or p q xs (ground arith) in (ground arith, ground arith)

  pub any_ext : (p q : A → Bool) (xs : List A) → ((x : A) → p x ≡ q x) → any p xs ≡ any q xs
  unfolding any
  any_ext p q [] h = refl
  any_ext p q (x ∷ xs) h = rw (h x, any_ext p q xs h) refl

  pub all_ext : (p q : A → Bool) (xs : List A) → ((x : A) → p x ≡ q x) → all p xs ≡ all q xs
  unfolding all
  all_ext p q [] h = refl
  all_ext p q (x ∷ xs) h = rw (h x, all_ext p q xs h) refl

  -- A test that holds more often.
  pub all_weaken :
      (p q : A → Bool) (xs : List A)
      → ((x : A) → p x ≡ true → q x ≡ true)
      → all p xs ≡ true
      → all q xs ≡ true
  unfolding all
  all_weaken p q [] h k = refl
  all_weaken p q (x ∷ xs) h k =
      let a = h x (ground arith) in let b = all_weaken p q xs h (ground arith) in ground arith

  pub all-true : (p : A → Bool) (xs : List A) → ((x : A) → p x ≡ true) → all p xs ≡ true
  unfolding all
  all-true p [] h = refl
  all-true p (x ∷ xs) h = rw (h x, all-true p xs h) refl

  any-keep-false : (p q : A → Bool) (xs : List A) → any p xs ≡ false → any p (keep q xs) ≡ false
  unfolding any keep
  any-keep-false p q [] h = refl
  any-keep-false p q (x ∷ xs) h =
      let k = any-keep-false p q xs (ground arith) in
      elim (Bool-cases (q x)) [ inl e ↦ rw (e, k) (ground arith) | inr e ↦ rw (e, k) refl ]

  -- A test that only elements that are kept satisfy.
  pub any-keep :
      (p q : A → Bool) (xs : List A)
      → ((x : A) → p x ≡ true → q x ≡ true)
      → any p xs ≡ true
      → any p (keep q xs) ≡ true
  unfolding any keep
  any-keep p q [] h k = k
  any-keep p q (x ∷ xs) h k = elim (Bool-cases (p x)) [
    | inl e ↦ rw (h x e) (ground arith)
    | inr e ↦
        let r = any-keep p q xs h (ground arith) in
        elim (Bool-cases (q x)) [ inl f ↦ rw (f, r) (ground arith) | inr f ↦ rw (f, r) refl ]
  ]

  -- What held of all, and what was kept for.
  pub all-keep :
      (p q r : A → Bool) (xs : List A)
      → ((x : A) → p x ≡ true → q x ≡ true → r x ≡ true)
      → all p xs ≡ true
      → all r (keep q xs) ≡ true
  unfolding all keep
  all-keep p q r [] h k = refl
  all-keep p q r (x ∷ xs) h k =
      let rest = all-keep p q r xs h (ground arith) in
      elim (Bool-cases (q x)) [
        | inl e ↦ let a = h x (ground arith) e in rw (e, rest, a) refl
        | inr e ↦ rw (e, rest) refl
      ]

  pub unique-append :
      (same : A → A → Bool) (x : A) (xs : List A)
      → any (λ k. same k x) xs ≡ false
      → unique same xs ≡ true
      → unique same (xs ++ (x ∷ [])) ≡ true
  unfolding unique any
  unique-append same x [] h k = refl
  unique-append same x (y ∷ ys) h k =
      let rest = unique-append same x ys (ground arith) (ground arith) in
      let f : any (same y) ys ≡ false = ground arith in
      let g : same y x ≡ false = ground arith in
      let a : any (same y) (ys ++ (x ∷ [])) ≡ false =
        any-append (same y) ys (x ∷ []) ∙ rw (f, g) refl in
      rw (a, rest) refl

  pub unique-keep :
      (same : A → A → Bool) (p : A → Bool) (xs : List A)
      → unique same xs ≡ true
      → unique same (keep p xs) ≡ true
  unfolding unique keep
  unique-keep same p [] h = refl
  unique-keep same p (x ∷ xs) h =
      let rest = unique-keep same p xs (ground arith) in
      let a = any-keep-false (same x) p xs (ground arith) in
      elim (Bool-cases (p x)) [ inl e ↦ rw (e, rest, a) refl | inr e ↦ rw (e, rest) refl ]

module _ {A B : Type 0} where
  pub any-map : (p : B → Bool) (f : A → B) (xs : List A) → any p (map f xs) ≡ any (λ x. p (f x)) xs
  unfolding any
  any-map p f [] = refl
  any-map p f (x ∷ xs) = rw (any-map p f xs) refl

  pub all-map : (p : B → Bool) (f : A → B) (xs : List A) → all p (map f xs) ≡ all (λ x. p (f x)) xs
  unfolding all
  all-map p f [] = refl
  all-map p f (x ∷ xs) = rw (all-map p f xs) refl

module _ {A : Type 0} where
  -- A change that no key notices.
  pub unique-map :
      (same : A → A → Bool) (f : A → A) (xs : List A)
      → ((x y : A) → same (f x) (f y) ≡ same x y)
      → unique same (map f xs) ≡ unique same xs
  unfolding unique
  unique-map same f [] h = refl
  unique-map same f (x ∷ xs) h =
      rw
        (
          any-map (same (f x)) f xs,
          any_ext (λ y. same (f x) (f y)) (same x) xs (h x),
          unique-map same f xs h,
        )
        refl

  pub unique-map_same :
      (same : A → A → Bool) (f : A → A) (xs : List A)
      → unique same (map f xs) ≡ unique (λ x y. same (f x) (f y)) xs
  unfolding unique
  unique-map_same same f [] = refl
  unique-map_same same f (x ∷ xs) = rw (any-map (same (f x)) f xs, unique-map_same same f xs) refl

  -- What is found, but not among what was kept, is found among the rest.
  pub any-keep-not :
      (p q : A → Bool) (xs : List A)
      → any p xs ≡ true
      → any p (keep q xs) ≡ false
      → any p (keep (λ x. not (q x)) xs) ≡ true
  unfolding any keep
  any-keep-not p q [] h k = h
  any-keep-not p q (x ∷ xs) h k = elim (Bool-cases (q x)) [
    | inl e ↦
        let m : (p x || any p (keep q xs)) ≡ false = rw e at k in
        rw e (any-keep-not p q xs (ground arith) (ground arith))
    | inr e ↦
        let m : any p (keep q xs) ≡ false = rw e at k in
        elim (Bool-cases (p x)) [
          | inl f ↦ rw (e, f) refl
          | inr f ↦ rw (e, f) (any-keep-not p q xs (ground arith) m)
        ]
  ]

  -- Where nothing is the same as anything.
  pub unique-false :
      (same : A → A → Bool) (xs : List A) → ((x y : A) → same x y ≡ false) → unique same xs ≡ true
  unfolding unique any
  unique-false same [] h = refl
  unique-false same (x ∷ xs) h = rw (none_same (same x) xs (h x), unique-false same xs h) refl
    where
      none_same : (p : A → Bool) (ys : List A) → ((y : A) → p y ≡ false) → any p ys ≡ false
      none_same p [] k = refl
      none_same p (y ∷ ys) k = rw (k y, none_same p ys k) refl

pub any-In-false :
    {A : Type 0} (p : A → Bool) (xs : List A) {x : A} → any p xs ≡ false → In x xs → p x ≡ false
unfolding any
any-In-false p [] h i = elim i [ ]
any-In-false p (y ∷ ys) h (head q) = rw q (ground arith)
any-In-false p (y ∷ ys) h (later i) = any-In-false p ys (ground arith) i
