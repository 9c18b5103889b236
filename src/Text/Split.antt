-- ===== src/Text/Split.antt =====
-- `split_once`, `rsplit_once` and `split_inclusive`.
pub mod Lines
use weiterleitung.Prelude.{
  ℕ, ◌≡◌, refl, false, List, [], ◌∷◌, ◌++◌, arith, if◌then◌else◌, ◌==◌, Option, none, some,
  Bool-cases, inl, inr, any,
}
use weiterleitung.Text.{Text, contains_char}

abbrev pub prepend : ℕ → Option (Text × Text) → Option (Text × Text)
prepend c none = none
prepend c (some (a, b)) = some (c ∷ a, b)

unfoldable pub split_once : ℕ → Text → Option (Text × Text)
split_once d [] = none
split_once d (c ∷ s) = if c == d then some ([], s) else prepend c (split_once d s)

abbrev pub rsplit_step : ℕ → ℕ → Text → Option (Text × Text) → Option (Text × Text)
rsplit_step d c s none = if c == d then some ([], s) else none
rsplit_step d c s (some (a, b)) = some (c ∷ a, b)

unfoldable pub rsplit_once : ℕ → Text → Option (Text × Text)
rsplit_once d [] = none
rsplit_once d (c ∷ s) = rsplit_step d c s (rsplit_once d s)

abbrev pub cons_line : ℕ → List Text → List Text
cons_line c [] = (c ∷ []) ∷ []
cons_line c (l ∷ ls) = (c ∷ l) ∷ ls

-- The lines of a text or of a byte stream, each with the delimiter that ends it.
unfoldable pub split_inclusive : ℕ → Text → List Text
split_inclusive d [] = []
split_inclusive d (c ∷ s) =
    let rest = split_inclusive d s in if c == d then (c ∷ []) ∷ rest else cons_line c rest

unfoldable pub concat : List Text → Text
concat [] = []
concat (l ∷ ls) = l ++ concat ls

concat-cons_line : (c : ℕ) (ls : List Text) → concat (cons_line c ls) ≡ c ∷ concat ls
unfolding concat
concat-cons_line c [] = refl
concat-cons_line c (l ∷ ls) = refl

concat_nil : concat [] ≡ []
unfolding concat
concat_nil = refl

concat-cons : (l : Text) (ls : List Text) → concat (l ∷ ls) ≡ l ++ concat ls
unfolding concat
concat-cons l ls = refl

-- Nothing is lost by cutting into lines.
pub concat-split_inclusive : (d : ℕ) (s : Text) → concat (split_inclusive d s) ≡ s
unfolding split_inclusive
concat-split_inclusive d [] = concat_nil
concat-split_inclusive d (c ∷ s) = elim (Bool-cases (c == d)) [
  | inl e ↦ rw e (rw concat-cons (rw (concat-split_inclusive d s)))
  | inr e ↦ rw e (rw concat-cons_line (rw (concat-split_inclusive d s)))
]

rsplit_once-none : (d : ℕ) (s : Text) → contains_char d s ≡ false → rsplit_once d s ≡ none
unfolding rsplit_once contains_char any
rsplit_once-none d [] h = refl
rsplit_once-none d (c ∷ s) h = ground (arith, rsplit_once-none d s)

-- The cut is at the last `d`.
pub rsplit_once-append :
    (d : ℕ) (s t : Text) → contains_char d t ≡ false → rsplit_once d (s ++ (d ∷ t)) ≡ some (s, t)
unfolding rsplit_once
rsplit_once-append d [] t h = rw (rsplit_once-none d t h) (ground arith)
rsplit_once-append d (c ∷ s) t h = rw (rsplit_once-append d s t h)
