-- ===== src/Smtp/Rewrite.antt =====
-- src/smtp/rewrite.rs: header surgery on raw messages. Slices and vectors are lists of bytes; the
-- header block is decoded as `String::from_utf8_lossy` does, and what is kept is encoded again.
pub mod Fields
pub mod Hidden
pub mod Private
pub mod Reading
use weiterleitung.Prelude.{
  ℕ, ◌+◌, Bool, true, false, not, ◌&&◌, ◌||◌, ◌==◌, if◌then◌else◌, any, is_empty, List, [], ◌∷◌,
  ◌++◌, take, drop, Option, none, some, String,
}
use weiterleitung.Text.{
  Text, Bytes, lit, Unicode, eq_text, eq_ignore_ascii_case, one_later, starts_with_char,
  replace_char,
}
use weiterleitung.Text.Trim.{trim}
use weiterleitung.Text.Split.{split_once, split_inclusive}
use weiterleitung.Text.Utf8.{from_utf8_lossy, encode}

abbrev pub stripped_headers : List Text
stripped_headers =
    lit "from"
    ∷ lit "sender"
    ∷ lit "reply-to"
    ∷ lit "return-path"
    ∷ lit "dkim-signature"
    ∷ lit "domainkey-signature"
    ∷ lit "arc-authentication-results"
    ∷ lit "arc-message-signature"
    ∷ lit "arc-seal"
    ∷ lit "authentication-results"
    ∷ lit "received-spf"
    ∷ lit "x-weiterleitung-alias"
    ∷ []

unfoldable pub starts_with : Bytes → Bytes → Bool
starts_with [] s = true
starts_with (n ∷ needle) [] = false
starts_with (n ∷ needle) (c ∷ s) = n == c && starts_with needle s

-- The place of the first window that equals the needle, which is not empty.
unfoldable pub find_subsequence : Bytes → Bytes → Option ℕ
unfolding starts_with
find_subsequence needle [] = none
find_subsequence needle (c ∷ s) =
    if starts_with needle (c ∷ s) then some 0 else one_later (find_subsequence needle s)

abbrev pub crlf : Bytes
crlf = b'\r' ∷ b'\n' ∷ []

abbrev pub split_bare : Bytes → Option ℕ → Bytes × Bytes
split_bare raw none = (raw, [])
split_bare raw (some index) = (take (index + 1) raw, drop (index + 2) raw)

abbrev pub split_at : Bytes → Option ℕ → Bytes × Bytes
split_at raw none = split_bare raw (find_subsequence (b'\n' ∷ b'\n' ∷ []) raw)
split_at raw (some index) = (take (index + 2) raw, drop (index + 4) raw)

unfoldable pub split_headers_body : Bytes → Bytes × Bytes
unfolding find_subsequence
split_headers_body raw = split_at raw (find_subsequence (b'\r' ∷ b'\n' ∷ b'\r' ∷ b'\n' ∷ []) raw)

unfoldable pub is_continuation : Text → Bool
unfolding starts_with_char
is_continuation line = starts_with_char b' ' line || starts_with_char b'\t' line

module _ ⦃u : Unicode⦄ where
  abbrev pub name_of : Option (Text × Text) → Text
  name_of none = []
  name_of (some (name, value)) = u.to_lowercase (trim name)

  -- The name of the field that a line begins, in lower case; empty without a colon.
  unfoldable pub field_name : Text → Text
  field_name line = name_of (split_once b':' line)

  unfoldable pub drops : List Text → Text → Bool
  unfolding field_name any
  drops names line = any (λ candidate. eq_text candidate (field_name line)) names

  -- The loop of `strip_headers`, with `dropping` as it stands before the next line.
  unfoldable pub strip_lines : List Text → Bool → List Text → Bytes
  strip_lines names dropping [] = []
  strip_lines names dropping (line ∷ lines) =
      let now_dropping = if not (is_continuation line) then drops names line else dropping in
      (if not now_dropping then encode line else []) ++ strip_lines names now_dropping lines

  unfoldable pub strip_headers : Bytes → List Text → Bytes
  strip_headers headers names =
      strip_lines names false (split_inclusive b'\n' (from_utf8_lossy headers))

abbrev pub begun : Text → Option (Text × Text) → Option Text
begun name none = none
begun name (some (candidate, rest)) =
    if eq_ignore_ascii_case (trim candidate) name then some (trim rest) else none

-- The loop of `header_value`.
unfoldable pub value_of : Text → Option Text → List Text → Option Text
value_of name value [] = value
value_of name none (line ∷ lines) =
    value_of name (if is_continuation line then none else begun name (split_once b':' line)) lines
value_of name (some value) (line ∷ lines) =
    if is_continuation line
    then value_of name (some (value ++ (b' ' ∷ trim line))) lines
    else some value

unfoldable pub header_value : Bytes → Text → Option Text
header_value headers name = value_of name none (split_inclusive b'\n' (from_utf8_lossy headers))

-- The characters that make `quoted_address` quote.
abbrev pub needs_quote : ℕ → Bool
needs_quote c =
    c == b'<'
    || c == b'>'
    || c == b'('
    || c == b')'
    || c == b','
    || c == b':'
    || c == b';'
    || c == b'@'
    || c == b'"'
    || c == b'.'

unfoldable pub escaped : Text → Text
unfolding replace_char
escaped display =
    replace_char b'"' (b'\\' ∷ b'"' ∷ []) (replace_char b'\\' (b'\\' ∷ b'\\' ∷ []) display)

unfoldable pub quoted_address : Text → Text → Text
unfolding escaped any
quoted_address display address =
    if any needs_quote display
    then lit "\"" ++ (escaped display ++ (lit "\" <" ++ (address ++ lit ">")))
    else escaped display ++ (lit " <" ++ (address ++ lit ">"))

pub record ForwardRewrite : Type 0 where
  pub alias : Text
  pub reverse_alias : Text
  pub sender_name : Option Text
  pub sender_email : Text

unfoldable pub display_of : Option Text → Text → Text
display_of none sender_email = sender_email
display_of (some name) sender_email =
    if not (is_empty (trim name)) then trim name ++ (lit " - " ++ sender_email) else sender_email

-- A header line with its line ending.
abbrev pub header : String → Text → Text
header name value = lit name ++ (lit ": " ++ (value ++ crlf))

pub record ReplyRewrite : Type 0 where
  pub alias : Text
  pub contact_email : Text

abbrev pub reply_stripped : List Text
reply_stripped =
    stripped_headers ++ (lit "to" ∷ lit "cc" ∷ lit "bcc" ∷ lit "x-weiterleitung-sender" ∷ [])

unfoldable pub forward_head : ForwardRewrite → Text
unfolding quoted_address display_of
forward_head p =
    header "From" (quoted_address (display_of p.sender_name p.sender_email) p.reverse_alias)
    ++ (header "Reply-To" p.reverse_alias
        ++ (header "X-Weiterleitung-Alias" p.alias
            ++ header "X-Weiterleitung-Sender" p.sender_email))

unfoldable pub reply_head : ReplyRewrite → Text
reply_head p =
    header "From" p.alias ++ (header "To" p.contact_email ++ header "X-Weiterleitung-Alias" p.alias)

module _ ⦃u : Unicode⦄ where
  unfoldable pub rewrite_for_forward : Bytes → ForwardRewrite → Bytes
  rewrite_for_forward raw p =
      let (headers, body) = split_headers_body raw in
      encode (forward_head p) ++ (strip_headers headers stripped_headers ++ (crlf ++ body))

  unfoldable pub rewrite_for_reply : Bytes → ReplyRewrite → Bytes
  rewrite_for_reply raw p =
      let (headers, body) = split_headers_body raw in
      encode (reply_head p) ++ (strip_headers headers reply_stripped ++ (crlf ++ body))
