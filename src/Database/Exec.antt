-- ===== src/Database/Exec.antt =====
-- Handlers that read and write the world and may fail, and the statements that they are made of.
-- What was written before an error stays written, unless a transaction undoes it.
use weiterleitung.Prelude.{ℕ, ◌+◌, Bool, true, false, List, [], ◌∷◌, Result, ok, err}
use weiterleitung.Text.{Text, lit}
use weiterleitung.Database.{Db, World}

abbrev pub Exec : Type 0 → Type 0 → Type 0
Exec E A = World → Result E A × World

module _ {E A : Type 0} where
  unfoldable pub pure : A → Exec E A
  pure a w = (ok a, w)

  unfoldable pub fail : E → Exec E A
  fail e w = (err e, w)

  unfoldable pub lift : Result E A → Exec E A
  lift r w = (r, w)

  unfoldable pub gets : (World → A) → Exec E A
  gets f w = (ok (f w), w)

module _ {E A B : Type 0} where
  abbrev pub continue : Result E A → (A → Exec E B) → Exec E B
  continue (ok a) f w = f a w
  continue (err e) f w = (err e, w)

  infixl 10 ◌>>=◌ ◌>>◌
  unfoldable pub ◌>>=◌ : Exec E A → (A → Exec E B) → Exec E B
  ◌>>=◌ m f w = continue (m w).0 f (m w).1

  abbrev pub ◌>>◌ : Exec E A → Exec E B → Exec E B
  m >> n = m >>= λ _. n

module _ {E F A : Type 0} where
  abbrev pub replace : (E → F) → Result E A → Result F A
  replace g (ok a) = ok a
  replace g (err e) = err (g e)

  -- `map_err`, and anyhow's `context`, which puts its text in front of the cause.
  unfoldable pub map_err : (E → F) → Exec E A → Exec F A
  map_err g m w = (replace g (m w).0, (m w).1)

abbrev pub io_failure : Text
io_failure = lit "I/O failure"

-- One operation of the database or the file system: the environment lets it fail or not.
abbrev pub attempt_with : List Bool → Exec Text (Unit {0})
attempt_with [] w = (ok tt, w)
attempt_with (true ∷ fs) w = (err io_failure, record w { faults = fs })
attempt_with (false ∷ fs) w = (ok tt, record w { faults = fs })

unfoldable pub attempt : Exec Text (Unit {0})
attempt w = attempt_with w.faults w

-- A query that only reads.
unfoldable pub select : {A : Type 0} → (Db → A) → Exec Text A
unfolding attempt gets ◌>>=◌
select q = do attempt; gets (λ w. q w.db)

abbrev pub store : Result Text Db → Exec Text (Unit {0})
store (ok db) w = (ok tt, record w { db = db })
store (err e) w = (err e, w)

-- A statement that writes, or is refused by a constraint.
unfoldable pub execute : (Db → Result Text Db) → Exec Text (Unit {0})
unfolding attempt ◌>>=◌
execute f = do attempt; λ w. store (f w.db) w

abbrev pub roll_back : {A : Type 0} → Db → Result Text A × World → Result Text A × World
roll_back db (ok a, w) = (ok a, w)
roll_back db (err e, w) = (err e, record w { db = db })

-- `begin` … `commit`: an error on the way, or of `commit` itself, undoes every write.
unfoldable pub transaction : {A : Type 0} → Exec Text A → Exec Text A
unfolding attempt pure ◌>>=◌
transaction m w = roll_back w.db ((do attempt; a ← m; attempt; pure a) w)

unfoldable pub now : {E : Type 0} → Exec E ℕ
unfolding gets
now = gets (λ w. w.clock)

-- `Uuid::new_v4`.
unfoldable pub new_uuid : {E : Type 0} → Exec E Text
new_uuid w = (ok (w.uuid w.drawn), record w { drawn = w.drawn + 1 })

-- A byte of the distribution `Alphanumeric`.
unfoldable pub draw_byte : {E : Type 0} → Exec E ℕ
draw_byte w = (ok (w.sample w.drawn), record w { drawn = w.drawn + 1 })

-- `gen_range(0..n)`.
unfoldable pub draw_below : {E : Type 0} → ℕ → Exec E ℕ
draw_below n w = (ok (w.range n w.drawn), record w { drawn = w.drawn + 1 })
