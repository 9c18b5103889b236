-- ===== src/Smtp/Rewrite/Reading.antt =====
-- How `header_value` reads one line of a header block.
use weiterleitung.Prelude.{
  ℕ, ◌≡◌, refl, ◌∙◌, ap, Bool, true, false, not, ◌&&◌, if◌then◌else◌, all, List, [], ◌∷◌, ◌++◌, map,
  none, some, arith,
}
use weiterleitung.Text.{
  Text, is_ascii, is_whitespace, eq_text, eq_ignore_ascii_case, to_ascii_lowercase,
}
use weiterleitung.Text.Trim.{trim, trim_start_matches, trim_end_matches}
use weiterleitung.Text.Split.{split_once}
use weiterleitung.Smtp.Rewrite.{crlf, is_continuation, begun, value_of}

-- Characters of an address: ASCII, and no whitespace.
abbrev pub is_plain : ℕ → Bool
is_plain c = is_ascii c && not (is_whitespace c)

trim_end_matches-plain :
    (v : Text) → all is_plain v ≡ true → trim_end_matches is_whitespace (v ++ crlf) ≡ v
unfolding trim_end_matches all is_whitespace
trim_end_matches-plain [] h = refl
trim_end_matches-plain (c ∷ []) h = ground arith
trim_end_matches-plain (c ∷ d ∷ v) h = rw (trim_end_matches-plain (d ∷ v) (ground arith)) refl

pub trim-plain : (v : Text) → all is_plain v ≡ true → trim (b' ' ∷ (v ++ crlf)) ≡ v
unfolding trim trim_start_matches trim_end_matches is_whitespace all
trim-plain [] h = refl
trim-plain (c ∷ v) h =
    let e : is_whitespace c ≡ false = ground arith in rw e (trim_end_matches-plain (c ∷ v) h)

module _ (name : Text) (lower : map to_ascii_lowercase name ≡ name) where
  pub begun-field :
      (line key low value v : Text)
      → split_once b':' line ≡ some (key, value)
      → map to_ascii_lowercase (trim key) ≡ low
      → trim value ≡ v
      → begun name (split_once b':' line) ≡ (if eq_text low name then some v else none)
  unfolding eq_ignore_ascii_case
  begun-field line key low value v s k t = rw (s, k, lower, t) refl

  pub value_of-field :
      (line next low v : Text) (rest : List Text)
      → is_continuation line ≡ false
      → is_continuation next ≡ false
      → begun name (split_once b':' line) ≡ (if eq_text low name then some v else none)
      → value_of name none (line ∷ next ∷ rest)
        ≡ (if eq_text low name then some v else value_of name none (next ∷ rest))
  unfolding value_of
  value_of-field line next low v rest c d b =
      ap (λ o. value_of name o (next ∷ rest))
        (ap (λ x. if x then none else begun name (split_once b':' line)) c ∙ b)
      ∙ after (eq_text low name)
    where
      after :
          (x : Bool)
          → value_of name (if x then some v else none) (next ∷ rest)
            ≡ (if x then some v else value_of name none (next ∷ rest))
      after true =
          ap (λ y. if y then value_of name (some (v ++ (b' ' ∷ trim next))) rest else some v) d
      after false = refl

  pub value_of-skip :
      (line low v : Text) (rest : List Text)
      → is_continuation line ≡ false
      → begun name (split_once b':' line) ≡ (if eq_text low name then some v else none)
      → eq_text low name ≡ false
      → value_of name none (line ∷ rest) ≡ value_of name none rest
  unfolding value_of
  value_of-skip line low v rest c b e =
      ap (λ o. value_of name o rest)
        (ap (λ x. if x then none else begun name (split_once b':' line)) c
          ∙ b
          ∙ ap (λ x. if x then some v else none) e)
