-- ===== src/Text/Utf8.antt =====
-- UTF-8: the encoder, and the decoder of `String::from_utf8_lossy` as a state machine over bytes.
-- A maximal ill-formed part becomes one U+FFFD. `from_utf8` is the same machine, and fails there.
use weiterleitung.Prelude.{
  ℕ, ◌+◌, ◌-◌, ◌*◌, ◌/◌, ◌%◌, ◌≡◌, refl, Bool, true, false, [], ◌∷◌, ◌++◌, arith, if◌then◌else◌,
  all, ◌&&◌, ◌==◌, Option, none, some, ltb, leb,
}
use weiterleitung.Text.{Text, Bytes, is_ascii}

-- `pending need lo hi acc`: `need` more bytes, the next of them in lo..=hi.
pub data Decoder : Type 0 where
  idle : Decoder
  pending : ℕ → ℕ → ℕ → ℕ → Decoder

-- The code points that a byte completes, and the next state; `bad` after an ill-formed part.
pub data Fed : Type 0 where
  good : Text → Decoder → Fed
  bad : Text → Decoder → Fed

abbrev pub replacement : ℕ
replacement = 0xFFFD

-- A byte at the start of a character.
unfoldable pub feed_first : ℕ → Fed
feed_first b =
    if ltb b 0x80
    then good (b ∷ []) idle
    else if ltb b 0xC2
    then bad (replacement ∷ []) idle
    else if ltb b 0xE0
    then good [] (pending 1 0x80 0xBF (b - 0xC0))
    else if b == 0xE0
    then good [] (pending 2 0xA0 0xBF 0)
    else if b == 0xED
    then good [] (pending 2 0x80 0x9F 13)
    else if ltb b 0xF0
    then good [] (pending 2 0x80 0xBF (b - 0xE0))
    else if b == 0xF0
    then good [] (pending 3 0x90 0xBF 0)
    else if ltb b 0xF4
    then good [] (pending 3 0x80 0xBF (b - 0xF0))
    else if b == 0xF4
    then good [] (pending 3 0x80 0x8F 4)
    else bad (replacement ∷ []) idle

-- The byte that breaks a character off is read again as a first byte.
abbrev pub resume : Fed → Fed
resume (good out d) = bad (replacement ∷ out) d
resume (bad out d) = bad (replacement ∷ out) d

unfoldable pub feed : Decoder → ℕ → Fed
unfolding feed_first
feed idle b = feed_first b
feed (pending need lo hi acc) b =
    if leb lo b && leb b hi
    then (if leb need 1
        then good ((acc * 64 + (b - 0x80)) ∷ []) idle
        else good [] (pending (need - 1) 0x80 0xBF (acc * 64 + (b - 0x80))))
    else resume (feed_first b)

abbrev pub flush : Decoder → Text
flush idle = []
flush (pending _ _ _ _) = replacement ∷ []

abbrev pub output : Fed → Text
output (good out d) = out
output (bad out d) = out

abbrev pub after : Fed → Decoder
after (good out d) = d
after (bad out d) = d

unfoldable pub decode : Decoder → Bytes → Text
unfolding feed
decode d [] = flush d
decode d (b ∷ bs) = output (feed d b) ++ decode (after (feed d b)) bs

unfoldable pub from_utf8_lossy : Bytes → Text
unfolding decode
from_utf8_lossy = decode idle

abbrev pub is_good : Fed → Bool
is_good (good out d) = true
is_good (bad out d) = false

abbrev pub is_idle : Decoder → Bool
is_idle idle = true
is_idle (pending _ _ _ _) = false

-- Whether the machine meets no ill-formed part.
unfoldable pub is_utf8 : Decoder → Bytes → Bool
unfolding feed
is_utf8 d [] = is_idle d
is_utf8 d (b ∷ bs) = is_good (feed d b) && is_utf8 (after (feed d b)) bs

unfoldable pub from_utf8 : Bytes → Option Text
unfolding is_utf8 from_utf8_lossy
from_utf8 bs = if is_utf8 idle bs then some (from_utf8_lossy bs) else none

unfoldable pub encode_char : ℕ → Bytes
encode_char c =
    if ltb c 0x80
    then c ∷ []
    else if ltb c 0x800
    then (0xC0 + c / 64) ∷ (0x80 + c % 64) ∷ []
    else if ltb c 0x10000
    then (0xE0 + c / 4096) ∷ (0x80 + c / 64 % 64) ∷ (0x80 + c % 64) ∷ []
    else (0xF0 + c / 262144) ∷ (0x80 + c / 4096 % 64) ∷ (0x80 + c / 64 % 64) ∷ (0x80 + c % 64) ∷ []

-- `as_bytes`.
unfoldable pub encode : Text → Bytes
unfolding encode_char
encode [] = []
encode (c ∷ s) = encode_char c ++ encode s

pub from_utf8_lossy-ascii : (bs : Bytes) → all is_ascii bs ≡ true → from_utf8_lossy bs ≡ bs
unfolding from_utf8_lossy is_ascii all
from_utf8_lossy-ascii [] h = refl
from_utf8_lossy-ascii (b ∷ bs) h = ground (arith, from_utf8_lossy-ascii bs)

pub encode-ascii : (s : Text) → all is_ascii s ≡ true → encode s ≡ s
unfolding encode is_ascii all
encode-ascii [] h = refl
encode-ascii (c ∷ s) h = ground (arith, encode-ascii s)
