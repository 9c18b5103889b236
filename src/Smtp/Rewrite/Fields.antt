-- ===== src/Smtp/Rewrite/Fields.antt =====
-- `strip_headers` as an operation on header fields, a field being the line that begins it and the
-- folded lines behind it.
use weiterleitung.Prelude.{
  ◌≡◌, refl, ap, sym, ◌∙◌, Bool, true, false, not, if◌then◌else◌, List, [], ◌∷◌, ◌++◌, append_assoc,
  Bool-cases, inl, inr, keep,
}
use weiterleitung.Text.{Text, Bytes, Unicode}
use weiterleitung.Text.Split.{split_inclusive}
use weiterleitung.Text.Utf8.{from_utf8_lossy, encode}
use weiterleitung.Smtp.Rewrite.{is_continuation, drops, strip_lines, strip_headers}

pub record Field : Type 0 where
  pub first : Text
  pub folded : List Text

-- Folded lines that no field begins, and the fields after them.
abbrev pub Block : Type 0
Block = List Text × List Field

abbrev add_line : Text → Block → Block
add_line line (lead, fields) =
    if is_continuation line
    then (line ∷ lead, fields)
    else ([], record { first = line; folded = lead } ∷ fields)

unfoldable pub fields_of : List Text → Block
fields_of [] = ([], [])
fields_of (line ∷ lines) = add_line line (fields_of lines)

unfoldable pub encode_lines : List Text → Bytes
encode_lines [] = []
encode_lines (line ∷ lines) = encode line ++ encode_lines lines

unfoldable pub encode_fields : List Field → Bytes
encode_fields [] = []
encode_fields (f ∷ fs) = (encode f.first ++ encode_lines f.folded) ++ encode_fields fs

module _ ⦃u : Unicode⦄ where
  -- The fields whose names are not in the list.
  abbrev pub remaining : List Text → List Field → List Field
  remaining names fields = keep (λ f. not (drops names f.first)) fields

  strip_lines-fields :
      (names : List Text) (dropping : Bool) (lines : List Text)
      → strip_lines names dropping lines
        ≡ (if dropping then [] else encode_lines (fields_of lines).0)
          ++ encode_fields (remaining names (fields_of lines).1)
  unfolding strip_lines fields_of encode_lines keep encode_fields
  strip_lines-fields names true [] = refl
  strip_lines-fields names false [] = refl
  strip_lines-fields names dropping (line ∷ lines) = elim (Bool-cases (is_continuation line)) [
    | inl e ↦ rw e (folded dropping (strip_lines-fields names dropping lines))
    | inr e ↦
        rw e (begins (drops names line) refl (strip_lines-fields names (drops names line) lines))
  ]
    where
      nothing : (d : Bool) (x : Bytes) → (if d then [] else []) ++ x ≡ x
      nothing true x = refl
      nothing false x = refl

      folded :
          (d : Bool)
          → strip_lines names d lines
            ≡ (if d then [] else encode_lines (fields_of lines).0)
              ++ encode_fields (remaining names (fields_of lines).1)
          → (if not d then encode line else []) ++ strip_lines names d lines
            ≡ (if d then [] else (encode line ++ encode_lines (fields_of lines).0))
              ++ encode_fields (remaining names (fields_of lines).1)
      folded true h = h
      folded false h = ap (λ x. encode line ++ x) h ∙ sym (append_assoc (encode line) _ _)

      begins :
          (d : Bool)
          → drops names line ≡ d
          → strip_lines names d lines
            ≡ (if d then [] else encode_lines (fields_of lines).0)
              ++ encode_fields (remaining names (fields_of lines).1)
          → (if not d then encode line else []) ++ strip_lines names d lines
            ≡ (if dropping then [] else [])
              ++ encode_fields (
                  if not d
                  then record { first = line; folded = (fields_of lines).0 }
                    ∷ remaining names (fields_of lines).1
                  else remaining names (fields_of lines).1)
      begins true e h = h ∙ sym (nothing dropping _)
      begins false e h =
          ap (λ x. encode line ++ x) h
          ∙ sym (append_assoc (encode line) _ _)
          ∙ sym (nothing dropping _)

  -- What is left of a header block, decoded with replacement characters where it is not UTF-8, is
  -- its fields whose names are not in the list, each with its folded lines, in their order, in
  -- UTF-8; folded lines that no field begins are left as they are.
  pub strip_headers-fields :
      (headers : Bytes) (names : List Text)
      → let block = fields_of (split_inclusive b'\n' (from_utf8_lossy headers)) in
        strip_headers headers names
        ≡ encode_lines block.0 ++ encode_fields (remaining names block.1)
  unfolding strip_headers
  strip_headers-fields headers names = strip_lines-fields names false _
