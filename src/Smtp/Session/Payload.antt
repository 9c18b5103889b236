-- ===== src/Smtp/Session/Payload.antt =====
-- What `read_data` makes of the lines of a message: dot stuffing is undone, the size is bounded,
-- and the reader stands behind the closing dot.
use weiterleitung.Prelude.{
  ℕ, ◌+◌, ◌≤◌, ◌<◌, ◌≡◌, refl, ◌∙◌, ap, Bool, true, false, leb, if◌then◌else◌, length,
  length-append, List, [], ◌∷◌, ◌++◌, append_assoc, append-nil, Result, ok, err, arith, ◌==◌,
  Bool-cases, inl, inr,
}
use weiterleitung.Text.{Bytes, Text, eq_text}
use weiterleitung.Smtp.Session.{
  crlf, strip_suffix, strip_eol, unstuff, absorb, verdict, too_large_reply, read_lines, read_data,
}

-- The client's side: a leading dot is doubled, and a line ends with CR LF.
abbrev pub stuff : Bytes → Bytes
stuff [] = []
stuff (c ∷ s) = if c == b'.' then b'.' ∷ c ∷ s else c ∷ s

abbrev pub sent_line : Bytes → Bytes
sent_line l = stuff l ++ crlf

abbrev pub sent_lines : List Bytes → List Bytes
sent_lines [] = (b'.' ∷ crlf) ∷ []
sent_lines (l ∷ ls) = sent_line l ∷ sent_lines ls

-- The message: its lines, each with CR LF.
abbrev pub message : List Bytes → Bytes
message [] = []
message (l ∷ ls) = l ++ (crlf ++ message ls)

strip_lf : (l : Bytes) → strip_suffix b'\n' (l ++ crlf) ≡ l ++ (b'\r' ∷ [])
unfolding strip_suffix
strip_lf [] = refl
strip_lf (c ∷ []) = refl
strip_lf (c ∷ d ∷ l) = ap (◌∷◌ c) (strip_lf (d ∷ l))

strip_cr : (l : Bytes) → strip_suffix b'\r' (l ++ (b'\r' ∷ [])) ≡ l
unfolding strip_suffix
strip_cr [] = refl
strip_cr (c ∷ []) = refl
strip_cr (c ∷ d ∷ l) = ap (◌∷◌ c) (strip_cr (d ∷ l))

pub strip_eol-crlf : (l : Bytes) → strip_eol (l ++ crlf) ≡ l
unfolding strip_eol
strip_eol-crlf l = rw (strip_lf l) (strip_cr l)

pub unstuff-stuff : (l : Bytes) → unstuff (stuff l) ≡ l
unfolding unstuff
unstuff-stuff [] = refl
unstuff-stuff (c ∷ l) = ground arith

stuff-ne-dot : (l : Bytes) → eq_text (stuff l) (b'.' ∷ []) ≡ false
unfolding eq_text
stuff-ne-dot [] = refl
stuff-ne-dot (c ∷ []) = ground arith
stuff-ne-dot (c ∷ d ∷ l) = ground arith

-- What the reader has kept after the lines, from what it had.
abbrev pub absorb_all : ℕ → Bytes × Bool → List Bytes → Bytes × Bool
absorb_all max s [] = s
absorb_all max s (l ∷ ls) = absorb_all max (absorb max s (stuff l)) ls

dot_line : eq_text (strip_eol (b'.' ∷ crlf)) (b'.' ∷ []) ≡ true
unfolding strip_eol eq_text
dot_line = refl

read_lines-sent :
    (max : ℕ) (ls : List Bytes) (s : Bytes × Bool) (rest : List Bytes)
    → read_lines max s (sent_lines ls ++ rest) ≡ (verdict (absorb_all max s ls), rest)
unfolding read_lines
read_lines-sent max [] s rest = rw dot_line
read_lines-sent max (l ∷ ls) s rest =
    rw (strip_eol-crlf (stuff l))
      (rw (stuff-ne-dot l) (read_lines-sent max ls (absorb max s (stuff l)) rest))

absorb_all-large :
    (max : ℕ) (body : Bytes) (ls : List Bytes) → absorb_all max (body, true) ls ≡ (body, true)
unfolding absorb
absorb_all-large max body [] = refl
absorb_all-large max body (l ∷ ls) = absorb_all-large max body ls

absorb-small :
    (max : ℕ) (body l : Bytes)
    → length body + length l + 2 ≤ max
    → absorb max (body, false) (stuff l) ≡ (body ++ (l ++ crlf), false)
unfolding absorb
absorb-small max body l h = rw (unstuff-stuff l) (ground arith)

absorb-big :
    (max : ℕ) (body l : Bytes)
    → max < length body + length l + 2
    → absorb max (body, false) (stuff l) ≡ (body, true)
unfolding absorb
absorb-big max body l h = rw (unstuff-stuff l) (ground arith)

length-message :
    (l : Bytes) (ls : List Bytes) → length (message (l ∷ ls)) ≡ length l + 2 + length (message ls)
length-message l ls = omega (arith, length-append {0} l (crlf ++ message ls))

-- The message if it fits, or the reply.
abbrev pub limited : ℕ → Bytes → Result Text Bytes
limited max body = if leb (length body) max then ok body else err too_large_reply

absorb_all-limited :
    (max : ℕ) (ls : List Bytes) (body : Bytes)
    → length body ≤ max
    → verdict (absorb_all max (body, false) ls) ≡ limited max (body ++ message ls)
absorb_all-limited max [] body h = rw append-nil (ground arith)
absorb_all-limited max (l ∷ ls) body h = elim (Bool-cases (leb (length body + length l + 2) max)) [
  | inl small ↦
      let fits : length body + length l + 2 ≤ max = ground arith in
      rw (absorb-small max body l fits) (
        absorb_all-limited max ls (body ++ (l ++ crlf))
          (omega (arith, length-append {0} body (l ++ crlf), length-append {0} l crlf))
        ∙ ap (limited max) (regroup body l ls))
  | inr big ↦
      let over : max < length body + length l + 2 = ground arith in
      rw (absorb-big max body l over) (
        rw (absorb_all-large max body ls)
          (ground (arith, length-append {0} body (message (l ∷ ls)), length-message l ls)))
]
  where
    regroup :
        (body l : Bytes) (ls : List Bytes)
        → (body ++ (l ++ crlf)) ++ message ls ≡ body ++ message (l ∷ ls)
    regroup body l ls = simp append_assoc

-- Of lines that a client sends stuffed, `read_data` returns the message that they make, each line
-- with its CR LF, if that has at most `max` bytes, and the reply 552 otherwise. Either way the
-- reader stands behind the closing dot.
pub read_data-sent_lines :
    (max : ℕ) (ls rest : List Bytes)
    → read_data max (sent_lines ls ++ rest) ≡ (limited max (message ls), rest)
unfolding read_data
read_data-sent_lines max ls rest =
    rw (read_lines-sent max ls ([], false) rest) (rw (absorb_all-limited max ls [] (omega arith)))

absorb-bound :
    (max : ℕ) (s : Bytes × Bool) (c : Bytes) → length s.0 ≤ max → length (absorb max s c).0 ≤ max
unfolding absorb
absorb-bound max (body, true) c h = h
absorb-bound max (body, false) c h =
    ground (arith, length-append {0} body (unstuff c ++ crlf), length-append {0} (unstuff c) crlf)

verdict-bound :
    (max : ℕ) (s : Bytes × Bool) {body : Bytes}
    → length s.0 ≤ max
    → verdict s ≡ ok body
    → length body ≤ max
verdict-bound max (b, true) h e = cc
verdict-bound max (b, false) h e = ground arith

read_lines-bound :
    (max : ℕ) (s : Bytes × Bool) (lines : List Bytes) {body : Bytes}
    → length s.0 ≤ max
    → (read_lines max s lines).0 ≡ ok body
    → length body ≤ max
unfolding read_lines
read_lines-bound max s [] h e = cc
read_lines-bound max s (l ∷ ls) h e = elim (Bool-cases (eq_text (strip_eol l) (b'.' ∷ []))) [
  | inl dot ↦ verdict-bound max s h (rw dot at e)
  | inr other ↦
      read_lines-bound max (absorb max s (strip_eol l)) ls (absorb-bound max s (strip_eol l) h)
        (rw other at e)
]

-- Whatever lines the client sends, a payload that `read_data` accepts has at most `max` bytes.
pub read_data-bound :
    (max : ℕ) (lines : List Bytes) {body : Bytes}
    → (read_data max lines).0 ≡ ok body
    → length body ≤ max
unfolding read_data
read_data-bound max lines e = read_lines-bound max ([], false) lines (omega arith) e

read_lines-length :
    (max : ℕ) (s : Bytes × Bool) (lines : List Bytes)
    → length (read_lines max s lines).1 ≤ length lines
unfolding read_lines
read_lines-length max s [] = omega arith
read_lines-length max s (l ∷ ls) =
    ground (arith, read_lines-length max (absorb max s (strip_eol l)) ls)

-- Reading a message leaves no more lines than there were.
pub read_data-length :
    (max : ℕ) (lines : List Bytes) → length (read_data max lines).1 ≤ length lines
unfolding read_data
read_data-length max lines = read_lines-length max ([], false) lines
