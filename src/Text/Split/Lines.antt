-- ===== src/Text/Split/Lines.antt =====
-- The lines of a text, put together again in part, are split into the same lines.
use weiterleitung.Prelude.{
  ℕ, ◌≡◌, refl, sym, ◌∙◌, ap, Bool, true, false, not, ◌==◌, Bool-cases, inl, inr, List, [], ◌∷◌,
  ◌++◌, append-nil, all, arith,
}
use weiterleitung.Text.{Text}
use weiterleitung.Text.Split.{cons_line, split_inclusive, concat}

module _ (d : ℕ) where
  -- A line with its delimiter.
  abbrev pub Whole : Text → Type 0
  Whole l = (t : Text) → split_inclusive d (l ++ t) ≡ l ∷ split_inclusive d t

  -- All lines but the last one are whole.
  abbrev pub Lines : List Text → Type 0
  Lines [] = Unit
  Lines (l ∷ []) = split_inclusive d l ≡ l ∷ []
  Lines (l ∷ m ∷ ls) = Whole l × Lines (m ∷ ls)

  pub split_inclusive-concat : (ls : List Text) → Lines ls → split_inclusive d (concat ls) ≡ ls
  unfolding concat split_inclusive
  split_inclusive-concat [] h = refl
  split_inclusive-concat (l ∷ []) h = rw (append-nil l) h
  split_inclusive-concat (l ∷ m ∷ ls) h =
      h.0 (concat (m ∷ ls)) ∙ ap (λ xs. l ∷ xs) (split_inclusive-concat (m ∷ ls) h.1)

  pub Lines-cons : (l : Text) (ls : List Text) → Whole l → Lines ls → Lines (l ∷ ls)
  unfolding split_inclusive
  Lines-cons l [] w h = sym (ap (split_inclusive d) (append-nil l)) ∙ w []
  Lines-cons l (m ∷ ls) w h = (w, h)

  pub Whole-newline : Whole (d ∷ [])
  unfolding split_inclusive
  Whole-newline t = let e : (d == d) ≡ true = ground arith in rw e refl

  pub Whole-append : (s l : Text) → all (λ c. not (c == d)) s ≡ true → Whole l → Whole (s ++ l)
  unfolding split_inclusive all
  Whole-append [] l h w t = w t
  Whole-append (c ∷ s) l h w t =
      let e : (c == d) ≡ false = ground arith in
      rw e (rw (Whole-append s l (ground arith) w t) refl)

  Lines-cons_line : (c : ℕ) (ls : List Text) → (c == d) ≡ false → Lines ls → Lines (cons_line c ls)
  unfolding split_inclusive
  Lines-cons_line c [] e h = rw e refl
  Lines-cons_line c (l ∷ []) e h = rw e (rw h refl)
  Lines-cons_line c (l ∷ m ∷ ls) e h = (λ t. rw e (rw (h.0 t) refl), h.1)

  pub Lines-split_inclusive : (s : Text) → Lines (split_inclusive d s)
  unfolding split_inclusive
  Lines-split_inclusive [] = tt
  Lines-split_inclusive (c ∷ s) = elim (Bool-cases (c == d)) [
    | inl e ↦
        rw e (Lines-cons (c ∷ []) (split_inclusive d s) (λ t. rw e refl) (Lines-split_inclusive s))
    | inr e ↦ rw e (Lines-cons_line c (split_inclusive d s) e (Lines-split_inclusive s))
  ]

-- A test of all characters is a test of all lines.
all-cons_line :
    (p : ℕ → Bool) (c : ℕ) (ls : List Text)
    → p c ≡ true
    → all (all p) ls ≡ true
    → all (all p) (cons_line c ls) ≡ true
unfolding all
all-cons_line p c [] h k = ground arith
all-cons_line p c (l ∷ ls) h k = ground arith

pub all-split_inclusive :
    (p : ℕ → Bool) (d : ℕ) (s : Text) → all p s ≡ true → all (all p) (split_inclusive d s) ≡ true
unfolding all split_inclusive
all-split_inclusive p d [] h = refl
all-split_inclusive p d (c ∷ s) h =
    let rest = all-split_inclusive p d s (ground arith) in
    elim (Bool-cases (c == d)) [
      | inl e ↦ rw e (ground arith)
      | inr e ↦ rw e (all-cons_line p c (split_inclusive d s) (ground arith) rest)
    ]
