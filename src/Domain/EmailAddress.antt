-- ===== src/Domain/EmailAddress.antt =====
-- src/domain/email_address.rs: parsing, the normalised form and the printed form of an address.
pub mod RoundTrip
use weiterleitung.Prelude.{
  ℕ, Bool, true, false, not, ◌&&◌, ◌||◌, ◌==◌, leb, if◌then◌else◌, any, all, List, ◌∷◌, [], ◌++◌,
  Option, none, some, Result, ok, err, is_empty,
}
use weiterleitung.Text.{
  Text, lit, Unicode, is_whitespace, is_ascii_alphanumeric, byte_len, contains_char,
  starts_with_char, contains_twice,
}
use weiterleitung.Text.Trim.{trim, trim_start_matches, trim_end_matches}
use weiterleitung.Text.Split.{rsplit_once}

pub record EmailAddress : Type 0 where
  pub local_part : Text
  pub domain : Text

-- The characters that a local part may not hold, beside whitespace.
abbrev pub is_special : ℕ → Bool
is_special c = c == b'<' || c == b'>' || c == b',' || c == b';' || c == b'"' || c == b'\\'

unfoldable pub valid_local : Text → Bool
unfolding byte_len any is_whitespace
valid_local l =
    not (is_empty l) && leb (byte_len l) 64 && not (any is_whitespace l) && not (any is_special l)

abbrev pub is_domain_char : ℕ → Bool
is_domain_char c = is_ascii_alphanumeric c || c == b'.' || c == b'-'

unfoldable pub valid_domain : Text → Bool
unfolding byte_len contains_char starts_with_char contains_twice all is_ascii_alphanumeric
valid_domain d =
    not (is_empty d)
    && leb (byte_len d) 255
    && contains_char b'.' d
    && not (starts_with_char b'.' d)
    && not (contains_twice b'.' d)
    && all is_domain_char d

abbrev pub is_char : ℕ → ℕ → Bool
is_char d c = c == d

-- The text of the address itself: the ends trimmed, then the angle brackets.
unfoldable pub bare : Text → Text
bare s = trim_end_matches (is_char b'>') (trim_start_matches (is_char b'<') (trim s))

abbrev pub not_valid : Text → Text
not_valid s = lit "`" ++ (s ++ lit "` is not a valid email address")

-- `{local_part}@{domain}`.
unfoldable pub to_string : EmailAddress → Text
to_string a = a.local_part ++ (b'@' ∷ a.domain)

module _ ⦃u : Unicode⦄ where
  -- The two halves of the address, checked.
  unfoldable pub parse_parts : Text → Option (Text × Text) → Result Text EmailAddress
  parse_parts s none = err (not_valid s)
  parse_parts s (some (l, d)) =
      let domain = u.to_lowercase (trim_end_matches (is_char b'.') d) in
      if not (valid_local l) || not (valid_domain domain)
      then err (not_valid s)
      else ok (record { local_part = l; domain = domain })

  unfoldable pub parse : Text → Result Text EmailAddress
  unfolding parse_parts
  parse s = parse_parts (bare s) (rsplit_once b'@' (bare s))

  -- The form used for lookups and uniqueness.
  unfoldable pub normalised : EmailAddress → Text
  normalised a = u.to_lowercase a.local_part ++ (b'@' ∷ a.domain)
