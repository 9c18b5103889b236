-- ===== src/Smtp/Rewrite/Private.antt =====
-- What can be read from the headers of a reply after `rewrite_for_reply`.
use weiterleitung.Prelude.{
  ℕ, ◌≡◌, refl, sym, ◌∙◌, ap, true, false, not, ◌==◌, if◌then◌else◌, all, all-append, all_weaken,
  List, [], ◌∷◌, ◌++◌, map, In, Option, none, some, arith, append_assoc, String,
}
use weiterleitung.Text.{
  Text, Bytes, lit, Unicode, is_ascii, is_whitespace, eq_text, to_ascii_lowercase,
}
use weiterleitung.Text.Trim.{trim}
use weiterleitung.Text.Split.{split_once, split_inclusive, concat}
use weiterleitung.Text.Split.Lines.{
  Whole, Whole-newline, Whole-append, Lines, split_inclusive-concat, Lines-split_inclusive,
  all-split_inclusive,
}
use weiterleitung.Text.Utf8.{encode, from_utf8_lossy, from_utf8_lossy-ascii, encode-ascii}
use weiterleitung.Smtp.Rewrite.{
  crlf, split_headers_body, is_continuation, strip_headers, strip_lines, value_of, header_value,
  header, ReplyRewrite, reply_stripped, reply_head, rewrite_for_reply,
}
use weiterleitung.Smtp.Rewrite.Hidden.{
  left_lines, strip_lines-left_lines, Lines-left_lines, all-left_lines, left-value_of,
}
use weiterleitung.Smtp.Rewrite.Reading.{
  is_plain, trim-plain, begun-field, value_of-field, value_of-skip,
}

-- What the reply shows of the headers that were stripped.
abbrev pub shown : ReplyRewrite → Text → Option Text
shown p name =
    if eq_text (lit "from") name
    then some p.alias
    else if eq_text (lit "to") name
    then some p.contact_email
    else none

-- The three lines of the new head, and the rest.
module _ (p : ReplyRewrite) where
  abbrev from_line : Text
  from_line = header "From" p.alias

  abbrev to_line : Text
  to_line = header "To" p.contact_email

  abbrev alias_line : Text
  alias_line = header "X-Weiterleitung-Alias" p.alias

  value_of-reply_head :
      (name : Text) (left : List Text)
      → map to_ascii_lowercase name ≡ name
      → eq_text (lit "x-weiterleitung-alias") name ≡ false
      → all is_plain p.alias ≡ true
      → all is_plain p.contact_email ≡ true
      → value_of name none left ≡ none
      → value_of name none (from_line ∷ to_line ∷ alias_line ∷ left) ≡ shown p name
  unfolding split_once trim to_ascii_lowercase is_continuation
  value_of-reply_head name left lower other a c h =
      value_of-field name lower from_line to_line (lit "from") p.alias (alias_line ∷ left) refl refl
        (begun-field name lower from_line (lit "From") (lit "from") (b' ' ∷ (p.alias ++ crlf))
          p.alias refl refl (trim-plain p.alias a))
      ∙ ap (λ o. if eq_text (lit "from") name then some p.alias else o)
          (value_of-field name lower to_line alias_line (lit "to") p.contact_email left refl refl (
              begun-field name lower to_line (lit "To") (lit "to")
                (b' ' ∷ (p.contact_email ++ crlf)) p.contact_email refl refl
                (trim-plain p.contact_email c))
            ∙ ap (λ o. if eq_text (lit "to") name then some p.contact_email else o)
                (value_of-skip name lower alias_line (lit "x-weiterleitung-alias") p.alias left refl
                    (begun-field name lower alias_line (lit "X-Weiterleitung-Alias")
                      (lit "x-weiterleitung-alias") (b' ' ∷ (p.alias ++ crlf)) p.alias refl refl
                      (trim-plain p.alias a))
                    other
                  ∙ h))

header-ascii :
    (n : String) (v : Text)
    → all is_ascii (lit n) ≡ true
    → all is_plain v ≡ true
    → all is_ascii (header n v) ≡ true
unfolding all is_ascii
header-ascii n v h k =
    let value : all is_ascii v ≡ true = all_weaken is_plain is_ascii v (λ c q. ground arith) k in
    all-append is_ascii (lit n) (lit ": " ++ (v ++ crlf))
    ∙ rw h (all-append is_ascii v crlf ∙ rw value refl)

newline_free : (c : ℕ) → is_plain c ≡ true → not (c == b'\n') ≡ true
unfolding is_whitespace
newline_free c h = ground arith

header-Whole :
    (n : String) (v : Text)
    → all (λ c. not (c == b'\n')) (lit n) ≡ true
    → all is_plain v ≡ true
    → Whole b'\n' (header n v)
unfolding all is_whitespace
header-Whole n v h k = Whole-append b'\n' (lit n) (lit ": " ++ (v ++ crlf)) h (
    Whole-append b'\n' (lit ": ") (v ++ crlf) refl (
      Whole-append b'\n' v crlf
        (all_weaken is_plain (λ c. not (c == b'\n')) v (λ c q. newline_free c q) k)
        (Whole-append b'\n' (b'\r' ∷ []) (b'\n' ∷ []) refl (Whole-newline b'\n'))))

reply_head-ascii :
    (p : ReplyRewrite)
    → all is_plain p.alias ≡ true
    → all is_plain p.contact_email ≡ true
    → all is_ascii (reply_head p) ≡ true
unfolding reply_head all is_ascii
reply_head-ascii p a c =
    all-append is_ascii (from_line p) (to_line p ++ alias_line p)
    ∙ rw (header-ascii "From" p.alias refl a) (
        all-append is_ascii (to_line p) (alias_line p)
        ∙ rw (header-ascii "To" p.contact_email refl c)
            (header-ascii "X-Weiterleitung-Alias" p.alias refl a))

reply_head-Lines :
    (p : ReplyRewrite) (left : List Text)
    → all is_plain p.alias ≡ true
    → all is_plain p.contact_email ≡ true
    → Lines b'\n' left
    → split_inclusive b'\n' (reply_head p ++ concat left)
      ≡ from_line p ∷ to_line p ∷ alias_line p ∷ left
unfolding reply_head all
reply_head-Lines p left a c h =
    ap (split_inclusive b'\n') (
      append_assoc (from_line p) (to_line p ++ alias_line p) (concat left)
      ∙ ap (λ t. from_line p ++ t) (append_assoc (to_line p) (alias_line p) (concat left)))
    ∙ header-Whole "From" p.alias refl a (to_line p ++ (alias_line p ++ concat left))
    ∙ ap (λ ls. from_line p ∷ ls)
        (header-Whole "To" p.contact_email refl c (alias_line p ++ concat left)
          ∙ ap (λ ls. to_line p ∷ ls)
              (header-Whole "X-Weiterleitung-Alias" p.alias refl a (concat left)
                ∙ ap (λ ls. alias_line p ∷ ls) (split_inclusive-concat b'\n' left h)))

-- A reply is sent with a new header block before the body of the message, which is unchanged. For
-- a name in lower case that replies are stripped of, save `x-weiterleitung-alias`, the block shows
-- the alias as `from`, the contact as `to`, and no header of any other name, where the headers of
-- the message are ASCII, and the two addresses are too and hold no whitespace.
pub header_value-rewrite_for_reply :
    ⦃u : Unicode⦄ (raw : Bytes) (p : ReplyRewrite) (name : Text)
    → map to_ascii_lowercase name ≡ name
    → In name reply_stripped
    → eq_text (lit "x-weiterleitung-alias") name ≡ false
    → all is_ascii (split_headers_body raw).0 ≡ true
    → all is_plain p.alias ≡ true
    → all is_plain p.contact_email ≡ true
    → (headers : Bytes) × (rewrite_for_reply raw p
        ≡ headers ++ (crlf ++ (split_headers_body raw).1))
      × (header_value headers name ≡ shown p name)
unfolding rewrite_for_reply header_value strip_headers
header_value-rewrite_for_reply raw p name lower listed other h a c =
    let old = (split_headers_body raw).0 in
    let lines = split_inclusive b'\n' old in
    let ascii = all-split_inclusive is_ascii b'\n' old h in
    let left = left_lines reply_stripped false lines in
    let kept = Lines-left_lines reply_stripped false lines (Lines-split_inclusive b'\n' old) in
    let head_ascii = reply_head-ascii p a c in
    let block : encode (reply_head p) ++ strip_headers old reply_stripped
        ≡ reply_head p ++ concat left =
      ap (λ t. t ++ strip_headers old reply_stripped) (encode-ascii (reply_head p) head_ascii)
      ∙ ap (λ t. reply_head p ++ strip_lines reply_stripped false (split_inclusive b'\n' t))
          (from_utf8_lossy-ascii old h)
      ∙ ap (λ t. reply_head p ++ t) (strip_lines-left_lines reply_stripped false lines ascii) in
    let block_ascii : all is_ascii (reply_head p ++ concat left) ≡ true =
      all-append is_ascii (reply_head p) (concat left)
      ∙ rw head_ascii (all-left_lines reply_stripped false lines ascii) in
    (
      encode (reply_head p) ++ strip_headers old reply_stripped,
      sym (
          append_assoc (encode (reply_head p)) (strip_headers old reply_stripped)
            (crlf ++ (split_headers_body raw).1)),
      ap (λ b. value_of name none (split_inclusive b'\n' (from_utf8_lossy b))) block
          ∙ ap (λ t. value_of name none (split_inclusive b'\n' t))
              (from_utf8_lossy-ascii (reply_head p ++ concat left) block_ascii)
          ∙ ap (value_of name none) (reply_head-Lines p left a c kept)
          ∙ value_of-reply_head p name left lower other a c
              (left-value_of reply_stripped name lower listed false lines ascii),
    )
