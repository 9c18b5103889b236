-- ===== src/Tests/Headers.antt =====
-- The headers of a message before and after a rewrite.
use weiterleitung.Prelude.{◌≡◌, refl, true, false, [], ◌∷◌, ◌++◌, head, later, all, map, some}
use weiterleitung.Text.{Text, Bytes, lit, eq_text, is_ascii, to_ascii_lowercase}
use weiterleitung.Smtp.Rewrite.{
  crlf, split_headers_body, header_value, ReplyRewrite, rewrite_for_reply,
}
use weiterleitung.Smtp.Rewrite.Reading.{is_plain}
use weiterleitung.Smtp.Rewrite.Private.{shown, header_value-rewrite_for_reply}
use weiterleitung.Tests.Fixture.{lines, ascii}

abbrev signed_headers : Bytes
signed_headers = lines ("Subject: hi" ∷ "DKIM-Signature : a;" ∷ " b=c" ∷ "To: shop@x.io" ∷ [])

signature_lower : map to_ascii_lowercase (lit "dkim-signature") ≡ lit "dkim-signature"
unfolding to_ascii_lowercase
signature_lower = refl

signature_readable : header_value signed_headers (lit "dkim-signature") ≡ some (lit "a; b=c")
unfolding header_value weiterleitung.Smtp.Rewrite.value_of weiterleitung.Text.Split.split_inclusive
    weiterleitung.Text.Utf8.from_utf8_lossy weiterleitung.Smtp.Rewrite.is_continuation
    weiterleitung.Text.Split.split_once weiterleitung.Text.eq_ignore_ascii_case
    weiterleitung.Text.Trim.trim
signature_readable = refl

abbrev signed : Bytes
signed = signed_headers ++ lines ("" ∷ "Hello" ∷ [])

abbrev answered : ReplyRewrite
answered = record { alias = lit "shop@x.io"; contact_email = lit "bob@b.org" }

split-ascii : all is_ascii (split_headers_body signed).0 ≡ true
unfolding all is_ascii split_headers_body weiterleitung.Smtp.Rewrite.find_subsequence
split-ascii = refl

alias_plain : all is_plain (lit "shop@x.io") ≡ true
unfolding all is_ascii weiterleitung.Text.is_whitespace
alias_plain = refl

contact_plain : all is_plain (lit "bob@b.org") ≡ true
unfolding all is_ascii weiterleitung.Text.is_whitespace
contact_plain = refl

no_alias_header : eq_text (lit "x-weiterleitung-alias") (lit "dkim-signature") ≡ false
unfolding eq_text
no_alias_header = refl

header_value-rewrite_for_reply_example :
    (headers : Bytes) × (rewrite_for_reply signed answered
      ≡ headers ++ (crlf ++ (split_headers_body signed).1))
    × (header_value headers (lit "dkim-signature") ≡ shown answered (lit "dkim-signature"))
header_value-rewrite_for_reply_example =
    header_value-rewrite_for_reply signed answered (lit "dkim-signature") signature_lower
      (later (later (later (later (head refl))))) no_alias_header split-ascii alias_plain
      contact_plain
