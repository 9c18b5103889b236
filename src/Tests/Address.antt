-- ===== src/Tests/Address.antt =====
-- Addresses and header blocks.
use weiterleitung.Prelude.{
  ◌≡◌, refl, List, [], ◌∷◌, ◌++◌, Option, none, some, Result, ok, err, Bool, true, false,
}
use weiterleitung.Text.{Text, lit}
use weiterleitung.Domain.EmailAddress.{EmailAddress, parse, to_string, normalised}
use weiterleitung.Domain.EmailAddress.RoundTrip.{
  IsCanonical, parse-to_string, parse-IsCanonical, parse-to_string-parse,
}
use weiterleitung.Smtp.Rewrite.{
  strip_headers, stripped_headers, rewrite_for_forward, header_value, split_headers_body,
}
use weiterleitung.Smtp.Rewrite.Fields.{
  fields_of, encode_lines, encode_fields, remaining, strip_headers-fields,
}
use weiterleitung.Text.Split.{split_inclusive}
use weiterleitung.Text.Utf8.{from_utf8_lossy}
use weiterleitung.Tests.Fixture.{ascii, lines, incoming}

abbrev written : Text
written = lit " <Alice@Example.COM.> "

abbrev alice : EmailAddress
alice = record { local_part = lit "Alice"; domain = lit "example.com" }

parse-alice : parse written ≡ ok alice
unfolding parse weiterleitung.Text.Split.rsplit_once weiterleitung.Domain.EmailAddress.bare
    weiterleitung.Text.Trim.trim_end_matches weiterleitung.Text.Trim.trim_start_matches
    weiterleitung.Text.Trim.trim weiterleitung.Domain.EmailAddress.valid_local
    weiterleitung.Domain.EmailAddress.valid_domain weiterleitung.Text.to_ascii_lowercase
parse-alice = refl

alice-IsCanonical : IsCanonical alice
unfolding weiterleitung.Prelude.all weiterleitung.Text.is_ascii
alice-IsCanonical = parse-IsCanonical written alice refl parse-alice

parse-to_string_example : parse (to_string alice) ≡ ok alice
parse-to_string_example = parse-to_string alice alice-IsCanonical

parse-IsCanonical_example : IsCanonical alice
unfolding weiterleitung.Prelude.all weiterleitung.Text.is_ascii
parse-IsCanonical_example = parse-IsCanonical written alice refl parse-alice

parse-to_string-parse_example : parse (to_string alice) ≡ parse written
unfolding weiterleitung.Prelude.all weiterleitung.Text.is_ascii
parse-to_string-parse_example = parse-to_string-parse written alice refl parse-alice

abbrev block : Text
block = lines ("From: a" ∷ "To: b" ∷ "Sender: c" ∷ " folded" ∷ "Subject: d" ∷ [])

strip-block : strip_headers block stripped_headers ≡ lines ("To: b" ∷ "Subject: d" ∷ [])
unfolding strip_headers weiterleitung.Smtp.Rewrite.strip_lines split_inclusive from_utf8_lossy
    weiterleitung.Smtp.Rewrite.is_continuation weiterleitung.Smtp.Rewrite.drops
    weiterleitung.Text.eq_text weiterleitung.Text.Split.split_once weiterleitung.Text.Trim.trim
    weiterleitung.Text.to_ascii_lowercase weiterleitung.Text.Utf8.encode
strip-block = refl

strip_headers-fields_example :
    strip_headers block stripped_headers
    ≡ encode_lines (fields_of (split_inclusive b'\n' (from_utf8_lossy block))).0
      ++ encode_fields
          (remaining stripped_headers (fields_of (split_inclusive b'\n' (from_utf8_lossy block))).1)
strip_headers-fields_example = strip_headers-fields block stripped_headers

subject : header_value (split_headers_body incoming.payload).0 (lit "subject") ≡ some (lit "hi")
unfolding header_value weiterleitung.Smtp.Rewrite.value_of split_inclusive from_utf8_lossy
    split_headers_body weiterleitung.Smtp.Rewrite.is_continuation
    weiterleitung.Text.Split.split_once weiterleitung.Text.eq_ignore_ascii_case
    weiterleitung.Text.Trim.trim
subject = refl
