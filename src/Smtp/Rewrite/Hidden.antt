-- ===== src/Smtp/Rewrite/Hidden.antt =====
-- The headers that are stripped cannot be read from what is left.
use weiterleitung.Prelude.{
  ℕ, if-intro, ◌≡◌, refl, sym, ◌∙◌, ap, subst, Bool, true, false, not, ◌==◌, if◌then◌else◌,
  Bool-cases, inl, inr, any, all, all-append, any-In-false, List, [], ◌∷◌, map, In, Option, none,
  some, arith,
}
use weiterleitung.Text.{
  Text, Unicode, is_ascii, eq_text, eq_text_iff, eq_text_refl, eq_ignore_ascii_case,
  to_ascii_lowercase,
}
use weiterleitung.Text.Trim.{trim, all-trim}
use weiterleitung.Text.Split.{prepend, split_once, concat}
use weiterleitung.Text.Split.Lines.{Lines, Lines-cons}
use weiterleitung.Text.Utf8.{encode, encode-ascii}
use weiterleitung.Smtp.Rewrite.{
  is_continuation, name_of, field_name, drops, strip_lines, begun, value_of,
}

prepend-eq-some :
    (c : ℕ) (o : Option (Text × Text)) {a b : Text}
    → prepend c o ≡ some (a, b)
    → (x : Text) × (y : Text) × (o ≡ some (x, y)) × (c ∷ x ≡ a)
prepend-eq-some c none h = cc
prepend-eq-some c (some (x, y)) h = (x, y, refl, ground arith)

all_ascii-split_once :
    (d : ℕ) (s a b : Text)
    → all is_ascii s ≡ true
    → split_once d s ≡ some (a, b)
    → all is_ascii a ≡ true
unfolding all split_once
all_ascii-split_once d [] a b h e = cc
all_ascii-split_once d (c ∷ s) a b h e = elim (Bool-cases (c == d)) [
  | inl k ↦
      let q : ◌≡◌ {A = Option (Text × Text)} (some ([], s)) (some (a, b)) = rw k at e in
      let r : [] ≡ a = cc in subst (λ x. all is_ascii x ≡ true) r refl
  | inr k ↦
      let q : prepend c (split_once d s) ≡ some (a, b) = rw k at e in
      let (x, y, f, r) = prepend-eq-some c (split_once d s) q in
      let k = all_ascii-split_once d s x y (ground arith) f in
      subst (λ t. all is_ascii t ≡ true) r (ground arith)
]

pick : {A : Type 0} (P : A → Type 0) (b : Bool) {x y : A} → P x → P y → P (if b then x else y)
pick P true h k = h
pick P false h k = k

module _ ⦃u : Unicode⦄ (names : List Text) where
  abbrev now : Bool → Text → Bool
  now dropping line = if not (is_continuation line) then drops names line else dropping

  -- The lines that are left.
  unfoldable pub left_lines : Bool → List Text → List Text
  left_lines dropping [] = []
  left_lines dropping (line ∷ lines) =
      let rest = left_lines (now dropping line) lines in
      if now dropping line then rest else line ∷ rest

  pub strip_lines-left_lines :
      (dropping : Bool) (lines : List Text)
      → all (all is_ascii) lines ≡ true
      → strip_lines names dropping lines ≡ concat (left_lines dropping lines)
  unfolding strip_lines left_lines concat all
  strip_lines-left_lines dropping [] h = refl
  strip_lines-left_lines dropping (line ∷ lines) h =
      let rest = strip_lines-left_lines (now dropping line) lines (ground arith) in
      let here : encode line ≡ line = encode-ascii line (ground arith) in
      elim (Bool-cases (now dropping line)) [
        | inl e ↦ rw e (subst (λ b. strip_lines names b lines ≡ concat (left_lines b lines)) e rest)
        | inr e ↦
            let k = subst (λ b. strip_lines names b lines ≡ concat (left_lines b lines)) e rest in
            rw e (rw (here, k) refl)
      ]

  pub Lines-left_lines :
      (dropping : Bool) (lines : List Text)
      → Lines b'\n' lines
      → Lines b'\n' (left_lines dropping lines)
  unfolding left_lines
  Lines-left_lines dropping [] h = tt
  Lines-left_lines dropping (line ∷ []) h = elim (Bool-cases (now dropping line)) [
    | inl e ↦ rw e tt
    | inr e ↦ rw e h
  ]
  Lines-left_lines dropping (line ∷ m ∷ lines) h =
      let rest = Lines-left_lines (now dropping line) (m ∷ lines) h.1 in
      pick (Lines b'\n') (now dropping line) rest (Lines-cons b'\n' line _ h.0 rest)

  pub all-left_lines :
      (dropping : Bool) (lines : List Text)
      → all (all is_ascii) lines ≡ true
      → all is_ascii (concat (left_lines dropping lines)) ≡ true
  unfolding left_lines concat all
  all-left_lines dropping [] h = refl
  all-left_lines dropping (line ∷ lines) h =
      let rest = all-left_lines (now dropping line) lines (ground arith) in
      let line_ascii : all is_ascii line ≡ true = ground arith in
      pick (λ ls. all is_ascii (concat ls) ≡ true) (now dropping line) rest
        (all-append is_ascii line _ ∙ rw (rest, line_ascii) refl)

  module _ (name : Text) (lower : map to_ascii_lowercase name ≡ name) (listed : In name names) where
    -- A line of another field, whose name is not in the list.
    not_begun :
        (line : Text)
        → all is_ascii line ≡ true
        → drops names line ≡ false
        → begun name (split_once b':' line) ≡ none
    unfolding drops field_name eq_ignore_ascii_case
    not_begun line h d = from (split_once b':' line) refl d
      where
        from :
            (o : Option (Text × Text))
            → split_once b':' line ≡ o
            → any (λ candidate. eq_text candidate (name_of o)) names ≡ false
            → begun name o ≡ none
        from none e k = refl
        from (some (candidate, value)) e k =
            let ascii =
              all-trim is_ascii candidate (all_ascii-split_once b':' line candidate value h e) in
            let differs =
              any-In-false (λ c. eq_text c (u.to_lowercase (trim candidate))) names k listed in
            elim (Bool-cases (eq_ignore_ascii_case (trim candidate) name)) [
              | inr f ↦ rw f refl
              | inl f ↦
                  let same =
                    u.to_lowercase_ascii (trim candidate) ascii ∙ (eq_text_iff _ _).0 f ∙ lower in
                  let q : eq_text name name ≡ false = sym (ap (eq_text name) same) ∙ differs in
                  cc (eq_text_refl name, q)
            ]

    -- A line that is kept does not begin the field.
    passed_by :
        (dropping : Bool) (line : Text)
        → all is_ascii line ≡ true
        → now dropping line ≡ false
        → (if is_continuation line then none else begun name (split_once b':' line)) ≡ none
    passed_by dropping line h e = elim (Bool-cases (is_continuation line)) [
      | inl c ↦ rw c refl
      | inr c ↦ let k : drops names line ≡ false = rw c at e in rw c (not_begun line h k)
    ]

    pub left-value_of :
        (dropping : Bool) (lines : List Text)
        → all (all is_ascii) lines ≡ true
        → value_of name none (left_lines dropping lines) ≡ none
    unfolding left_lines value_of all
    left-value_of dropping [] h = refl
    left-value_of dropping (line ∷ lines) h =
        let rest = left-value_of (now dropping line) lines (ground arith) in
        let own : all is_ascii line ≡ true = ground arith in
        if-intro (λ ls. value_of name none ls ≡ none) (now dropping line) _ _ (λ e. rest)
          (λ e.
            subst (λ o. value_of name o (left_lines (now dropping line) lines) ≡ none)
              (sym (passed_by dropping line own e)) rest)
