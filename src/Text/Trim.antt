-- ===== src/Text/Trim.antt =====
-- `trim_start_matches`, `trim_end_matches`, `trim` and `split_whitespace().next()`.
use weiterleitung.Prelude.{
  ℕ, ◌≡◌, refl, Bool, true, false, [], ◌∷◌, arith, if◌then◌else◌, all, Bool-cases, inl, inr,
  all-uncons,
}
use weiterleitung.Text.{Text, is_whitespace}

unfoldable pub trim_start_matches : (ℕ → Bool) → Text → Text
trim_start_matches p [] = []
trim_start_matches p (c ∷ s) = if p c then trim_start_matches p s else c ∷ s

abbrev pub push_unless : (ℕ → Bool) → ℕ → Text → Text
push_unless p c [] = if p c then [] else c ∷ []
push_unless p c (d ∷ s) = c ∷ d ∷ s

unfoldable pub trim_end_matches : (ℕ → Bool) → Text → Text
trim_end_matches p [] = []
trim_end_matches p (c ∷ s) = push_unless p c (trim_end_matches p s)

unfoldable pub trim : Text → Text
unfolding trim_start_matches trim_end_matches is_whitespace
trim s = trim_end_matches is_whitespace (trim_start_matches is_whitespace s)

unfoldable pub take_until : (ℕ → Bool) → Text → Text
take_until p [] = []
take_until p (c ∷ s) = if p c then [] else c ∷ take_until p s

-- The first of the words that whitespace separates, empty where there is none.
unfoldable pub first_word : Text → Text
unfolding trim_start_matches take_until is_whitespace
first_word s = take_until is_whitespace (trim_start_matches is_whitespace s)

-- The first, or the last, character does not satisfy `p`.
abbrev pub Starts : (ℕ → Bool) → Text → Type 0
Starts p [] = Unit
Starts p (c ∷ s) = p c ≡ false

abbrev pub Ends : (ℕ → Bool) → Text → Type 0
Ends p [] = Unit
Ends p (c ∷ []) = p c ≡ false
Ends p (c ∷ d ∷ s) = Ends p (d ∷ s)

pub trim_start_matches-same : (p : ℕ → Bool) (s : Text) → Starts p s → trim_start_matches p s ≡ s
unfolding trim_start_matches
trim_start_matches-same p [] h = refl
trim_start_matches-same p (c ∷ s) h = rw h

pub trim_end_matches-same : (p : ℕ → Bool) (s : Text) → Ends p s → trim_end_matches p s ≡ s
unfolding trim_end_matches
trim_end_matches-same p [] h = refl
trim_end_matches-same p (c ∷ []) h = rw h
trim_end_matches-same p (c ∷ d ∷ s) h = rw (trim_end_matches-same p (d ∷ s) h)

pub trim_start_matches-Starts : (p : ℕ → Bool) (s : Text) → Starts p (trim_start_matches p s)
unfolding trim_start_matches
trim_start_matches-Starts p [] = tt
trim_start_matches-Starts p (c ∷ s) = elim (Bool-cases (p c)) [
  | inl e ↦ rw e (trim_start_matches-Starts p s)
  | inr e ↦ rw e e
]

push_unless-Ends : (p : ℕ → Bool) (c : ℕ) (s : Text) → Ends p s → Ends p (push_unless p c s)
push_unless-Ends p c [] h = elim (Bool-cases (p c)) [ inl e ↦ rw e tt | inr e ↦ rw e e ]
push_unless-Ends p c (d ∷ s) h = h

pub trim_end_matches-Ends : (p : ℕ → Bool) (s : Text) → Ends p (trim_end_matches p s)
unfolding trim_end_matches
trim_end_matches-Ends p [] = tt
trim_end_matches-Ends p (c ∷ s) =
    push_unless-Ends p c (trim_end_matches p s) (trim_end_matches-Ends p s)

-- A test of all characters survives trimming.
pub all-trim_start_matches :
    (q p : ℕ → Bool) (s : Text) → all q s ≡ true → all q (trim_start_matches p s) ≡ true
unfolding trim_start_matches all
all-trim_start_matches q p [] h = refl
all-trim_start_matches q p (c ∷ s) h = ground (arith, all-trim_start_matches q p s)

all-push_unless :
    (q p : ℕ → Bool) (c : ℕ) (s : Text)
    → q c ≡ true
    → all q s ≡ true
    → all q (push_unless p c s) ≡ true
unfolding all
all-push_unless q p c [] h k = ground arith
all-push_unless q p c (d ∷ s) h k = ground arith

pub all-trim_end_matches :
    (q p : ℕ → Bool) (s : Text) → all q s ≡ true → all q (trim_end_matches p s) ≡ true
unfolding trim_end_matches
all-trim_end_matches q p [] h = h
all-trim_end_matches q p (c ∷ s) h =
    let k = all-uncons q c s h in
    all-push_unless q p c (trim_end_matches p s) k.0 (all-trim_end_matches q p s k.1)

pub all-trim : (q : ℕ → Bool) (s : Text) → all q s ≡ true → all q (trim s) ≡ true
unfolding trim
all-trim q s h = all-trim_end_matches q is_whitespace _ (all-trim_start_matches q is_whitespace s h)
