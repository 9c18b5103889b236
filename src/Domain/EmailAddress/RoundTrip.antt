-- ===== src/Domain/EmailAddress/RoundTrip.antt =====
-- What `parse` accepts, and that it reads back what it prints.
use weiterleitung.Prelude.{
  ℕ, ◌≡◌, refl, ◌∙◌, sym, Bool, true, false, ◌==◌, any, all, ◌∷◌, [], ◌++◌, Option, none, some, ok,
  is_empty, arith, map, all-uncons, Bool-cases, inl, inr,
}
use weiterleitung.Text.{
  Text, Unicode, is_whitespace, is_ascii, is_ascii_alphanumeric, contains_char, to_ascii_lowercase,
}
use weiterleitung.Text.Trim.{
  trim, trim_end_matches, Starts, Ends, trim_start_matches-same, trim_end_matches-same,
  trim_end_matches-Ends, all-trim_start_matches, all-trim_end_matches, all-trim,
}
use weiterleitung.Text.Split.{rsplit_step, rsplit_once, rsplit_once-append}
use weiterleitung.Domain.EmailAddress.{
  EmailAddress, valid_local, valid_domain, is_char, is_domain_char, is_special, bare, to_string,
  parse_parts, parse,
}

-- An address as `parse` leaves it: both halves valid, the domain in ASCII lower case and with no
-- dot at its end.
pub record IsCanonical (a : EmailAddress) : Type 0 where
  pub local_ok : valid_local a.local_part ≡ true
  pub domain_ok : valid_domain a.domain ≡ true
  pub domain_lower : map to_ascii_lowercase a.domain ≡ a.domain
  pub domain_end : Ends (is_char b'.') a.domain

-- Both halves of an accepted address are valid.
pub parse_parts-valid :
    ⦃u : Unicode⦄ (s : Text) (p : Option (Text × Text)) (a : EmailAddress)
    → parse_parts s p ≡ ok a
    → (valid_local a.local_part ≡ true) × (valid_domain a.domain ≡ true)
unfolding parse_parts
parse_parts-valid s none a h = cc
parse_parts-valid s (some (l, d)) a h = ground arith

-- Facts about the ends of a text.
any-Starts :
    (p q : ℕ → Bool) (l rest : Text)
    → ((c : ℕ) → q c ≡ false → p c ≡ false)
    → any q l ≡ false
    → is_empty l ≡ false
    → Starts p (l ++ rest)
unfolding any
any-Starts p q [] rest imp h ne = cc
any-Starts p q (c ∷ l) rest imp h ne = imp c (ground arith)

Ends-append : (p : ℕ → Bool) (l : Text) (c : ℕ) (d : Text) → Ends p (c ∷ d) → Ends p (l ++ (c ∷ d))
Ends-append p [] c d h = h
Ends-append p (b ∷ []) c d h = h
Ends-append p (b ∷ e ∷ l) c d h = Ends-append p (e ∷ l) c d h

all-Ends :
    (p q : ℕ → Bool) (c : ℕ) (d : Text)
    → ((b : ℕ) → q b ≡ true → p b ≡ false)
    → p c ≡ false
    → all q d ≡ true
    → Ends p (c ∷ d)
all-Ends p q c [] imp h k = h
all-Ends p q c (b ∷ d) imp h k =
    let ks = all-uncons q b d k in all-Ends p q b d imp (imp b ks.0) ks.1

all-contains_char :
    (x : ℕ) (q : ℕ → Bool) (d : Text)
    → ((b : ℕ) → q b ≡ true → is_char x b ≡ false)
    → all q d ≡ true
    → contains_char x d ≡ false
unfolding contains_char any
all-contains_char x q [] imp k = refl
all-contains_char x q (b ∷ d) imp k =
    let ks = all-uncons q b d k in ground (arith, imp b ks.0, all-contains_char x q d imp ks.1)

domain_char-not :
    (x c : ℕ) → is_domain_char x ≡ false → is_domain_char c ≡ true → is_char x c ≡ false
domain_char-not x c h k = ground arith

domain_char-ascii : (c : ℕ) → is_domain_char c ≡ true → is_ascii c ≡ true
unfolding is_ascii_alphanumeric is_ascii
domain_char-ascii c h = ground arith

domain_char-space : (c : ℕ) → is_domain_char c ≡ true → is_whitespace c ≡ false
unfolding is_ascii_alphanumeric is_whitespace
domain_char-space c h = ground arith

all-imp :
    (p q : ℕ → Bool) (d : Text)
    → ((c : ℕ) → p c ≡ true → q c ≡ true)
    → all p d ≡ true
    → all q d ≡ true
unfolding all
all-imp p q [] imp h = refl
all-imp p q (c ∷ d) imp h = ground (arith, imp c, all-imp p q d imp)

domain_chars : (d : Text) → valid_domain d ≡ true → all is_domain_char d ≡ true
unfolding valid_domain
domain_chars d h = ground arith

record LocalFacts (l : Text) : Type 0 where
  filled : is_empty l ≡ false
  no_space : any is_whitespace l ≡ false
  no_special : any is_special l ≡ false

valid_local-facts : (l : Text) → valid_local l ≡ true → LocalFacts l
valid_local-facts l h =
    unfold valid_local in
    record { filled = ground arith; no_space = ground arith; no_special = ground arith }

domain_char-greater : (c : ℕ) → is_domain_char c ≡ true → is_char b'>' c ≡ false
unfolding is_ascii_alphanumeric
domain_char-greater c h = ground arith

domain_char-at : (c : ℕ) → is_domain_char c ≡ true → is_char b'@' c ≡ false
unfolding is_ascii_alphanumeric
domain_char-at c h = ground arith

-- The printed form is bare already: nothing at its ends is trimmed.
bare-to_string : (a : EmailAddress) → IsCanonical a → bare (to_string a) ≡ to_string a
unfolding bare to_string trim
bare-to_string a c =
    let l = valid_local-facts a.local_part c.local_ok in
    let d = domain_chars a.domain c.domain_ok in
    let s = a.local_part ++ (b'@' ∷ a.domain) in
    let start =
      any-Starts is_whitespace is_whitespace a.local_part (b'@' ∷ a.domain) (λ b h. h) l.no_space
        l.filled in
    let less =
      any-Starts (is_char b'<') is_special a.local_part (b'@' ∷ a.domain) (λ b h. ground arith)
        l.no_special l.filled in
    let end = Ends-append is_whitespace a.local_part b'@' a.domain (
      all-Ends is_whitespace is_domain_char b'@' a.domain domain_char-space
        (unfold is_whitespace in refl) d) in
    let greater =
      Ends-append (is_char b'>') a.local_part b'@' a.domain
        (all-Ends (is_char b'>') is_domain_char b'@' a.domain domain_char-greater refl d) in
    rw (
      trim_start_matches-same is_whitespace s start,
      trim_end_matches-same is_whitespace s end,
      trim_start_matches-same (is_char b'<') s less,
      trim_end_matches-same (is_char b'>') s greater,
    )

split_to_string :
    (a : EmailAddress)
    → contains_char b'@' a.domain ≡ false
    → rsplit_once b'@' (to_string a) ≡ some (a.local_part, a.domain)
unfolding to_string
split_to_string a h = rsplit_once-append b'@' a.local_part a.domain h

-- `parse` reads back the printed form of every canonical address, whatever the Unicode tables.
pub parse-to_string : ⦃u : Unicode⦄ (a : EmailAddress) → IsCanonical a → parse (to_string a) ≡ ok a
unfolding parse parse_parts
parse-to_string ⦃u⦄ a c =
    let d = domain_chars a.domain c.domain_ok in
    let at = all-contains_char b'@' is_domain_char a.domain domain_char-at d in
    rw (bare-to_string a c) (
      rw (split_to_string a at) (
        rw (trim_end_matches-same (is_char b'.') a.domain c.domain_end) (
          rw
            (u.to_lowercase_ascii a.domain
              (all-imp is_domain_char is_ascii a.domain domain_char-ascii d))
            (rw c.domain_lower (rw (c.local_ok, c.domain_ok) refl)))))

-- A test of all characters holds of the part behind the cut.
abbrev AllRight : (ℕ → Bool) → Option (Text × Text) → Type 0
AllRight q none = Unit
AllRight q (some (l, r)) = all q r ≡ true

rsplit_step-AllRight :
    (q : ℕ → Bool) (d c : ℕ) (s : Text) (o : Option (Text × Text))
    → all q s ≡ true
    → AllRight q o
    → AllRight q (rsplit_step d c s o)
rsplit_step-AllRight q d c s none h k = elim (Bool-cases (c == d)) [
  | inl e ↦ rw e h
  | inr e ↦ rw e tt
]
rsplit_step-AllRight q d c s (some (l, r)) h k = k

rsplit_once-AllRight :
    (q : ℕ → Bool) (d : ℕ) (s : Text) → all q s ≡ true → AllRight q (rsplit_once d s)
unfolding rsplit_once
rsplit_once-AllRight q d [] h = tt
rsplit_once-AllRight q d (c ∷ s) h =
    let hs = all-uncons q c s h in
    rsplit_step-AllRight q d c s (rsplit_once d s) hs.1 (rsplit_once-AllRight q d s hs.1)

lower-lower : (c : ℕ) → to_ascii_lowercase (to_ascii_lowercase c) ≡ to_ascii_lowercase c
unfolding to_ascii_lowercase
lower-lower c = ground arith

lower_map :
    (s : Text) → map to_ascii_lowercase (map to_ascii_lowercase s) ≡ map to_ascii_lowercase s
lower_map [] = refl
lower_map (c ∷ s) = cc (lower-lower c, lower_map s)

lower-dot : (c : ℕ) → is_char b'.' c ≡ false → is_char b'.' (to_ascii_lowercase c) ≡ false
unfolding to_ascii_lowercase
lower-dot c h = ground arith

Ends-lower : (s : Text) → Ends (is_char b'.') s → Ends (is_char b'.') (map to_ascii_lowercase s)
Ends-lower [] h = tt
Ends-lower (c ∷ []) h = lower-dot c h
Ends-lower (c ∷ d ∷ s) h = Ends-lower (d ∷ s) h

lowered :
    ⦃u : Unicode⦄ (s l d : Text) (a : EmailAddress)
    → all is_ascii d ≡ true
    → parse_parts s (some (l, d)) ≡ ok a
    → a.domain ≡ map to_ascii_lowercase (trim_end_matches (is_char b'.') d)
unfolding parse_parts
lowered ⦃u⦄ s l d a k h =
    let t = trim_end_matches (is_char b'.') d in
    ground (arith, u.to_lowercase_ascii t (all-trim_end_matches is_ascii (is_char b'.') d k))

all-bare : (s : Text) → all is_ascii s ≡ true → all is_ascii (bare s) ≡ true
unfolding bare
all-bare s h =
    all-trim_end_matches is_ascii (is_char b'>') _
      (all-trim_start_matches is_ascii (is_char b'<') _ (all-trim is_ascii s h))

parse_parts-IsCanonical :
    ⦃u : Unicode⦄ (s : Text) (p : Option (Text × Text)) (a : EmailAddress)
    → AllRight is_ascii p
    → parse_parts s p ≡ ok a
    → IsCanonical a
parse_parts-IsCanonical s none a k h = unfold parse_parts in cc
parse_parts-IsCanonical ⦃u⦄ s (some (l, d)) a k h =
    let v = parse_parts-valid s (some (l, d)) a h in
    let t = trim_end_matches (is_char b'.') d in
    let e : a.domain ≡ map to_ascii_lowercase t = lowered s l d a k h in
    record {
      local_ok = v.0;
      domain_ok = v.1;
      domain_lower = rw e (lower_map t);
      domain_end = rw e (Ends-lower t (trim_end_matches-Ends (is_char b'.') d));
    }

-- Whatever ASCII text `parse` accepts, the address that it returns is canonical: both halves are
-- valid, and the domain is in lower case, with no dot at its end.
pub parse-IsCanonical :
    ⦃u : Unicode⦄ (s : Text) (a : EmailAddress)
    → all is_ascii s ≡ true
    → parse s ≡ ok a
    → IsCanonical a
unfolding parse
parse-IsCanonical s a k h =
    parse_parts-IsCanonical (bare s) (rsplit_once b'@' (bare s)) a
      (rsplit_once-AllRight is_ascii b'@' (bare s) (all-bare s k)) h

-- Where `parse` accepts an ASCII text, parsing the printed form of the address gives it again.
pub parse-to_string-parse :
    ⦃u : Unicode⦄ (s : Text) (a : EmailAddress)
    → all is_ascii s ≡ true
    → parse s ≡ ok a
    → parse (to_string a) ≡ parse s
parse-to_string-parse s a k h = parse-to_string a (parse-IsCanonical s a k h) ∙ sym h
