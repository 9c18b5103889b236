-- ===== src/Alias/Generator.antt =====
-- src/alias/generator.rs: random tokens and local parts.
use weiterleitung.Prelude.{ℕ, zero, suc, List, [], ◌∷◌, ◌++◌, length}
use weiterleitung.Text.{Text, lit, to_ascii_lowercase}
use weiterleitung.Database.Exec.{Exec, pure, ◌>>=◌, draw_byte, draw_below}

abbrev pub words : List Text
words =
    lit "amber"
    ∷ lit "basalt"
    ∷ lit "cedar"
    ∷ lit "delta"
    ∷ lit "ember"
    ∷ lit "fjord"
    ∷ lit "gable"
    ∷ lit "harbor"
    ∷ lit "indigo"
    ∷ lit "juniper"
    ∷ lit "kelp"
    ∷ lit "lumen"
    ∷ lit "marble"
    ∷ lit "nimbus"
    ∷ lit "onyx"
    ∷ lit "pebble"
    ∷ lit "quartz"
    ∷ lit "ripple"
    ∷ lit "slate"
    ∷ lit "tundra"
    ∷ lit "umber"
    ∷ lit "vellum"
    ∷ lit "willow"
    ∷ lit "xenon"
    ∷ lit "yarrow"
    ∷ lit "zephyr"
    ∷ []

unfoldable pub random_token : {E : Type 0} → ℕ → Exec E Text
random_token zero = pure []
random_token (suc n) = do
  byte ← draw_byte
  rest ← random_token n
  pure (to_ascii_lowercase byte ∷ rest)

-- `WORDS[i]`; the empty text stands for the panic of an index that is out of range.
unfoldable pub word_at : List Text → ℕ → Text
word_at [] i = []
word_at (w ∷ ws) zero = w
word_at (w ∷ ws) (suc i) = word_at ws i

unfoldable pub random_local_part : {E : Type 0} → Exec E Text
random_local_part = do
  i ← draw_below (length words)
  j ← draw_below (length words)
  token ← random_token 4
  pure (word_at words i ++ (lit "-" ++ (word_at words j ++ (lit "." ++ token))))
