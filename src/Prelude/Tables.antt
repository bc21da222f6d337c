-- ===== src/Prelude/Tables.antt =====
-- A table of the database as a map from its primary key: an `UPDATE … WHERE id = ?` reaches one
-- row at most, and the count of rows affected tells whether it did.
use configdeck.Prelude.Chars.{Text, eq_text}
use configdeck.Prelude.Tests.{if◌then◌else◌}
use mathlib.Core.Bool.{Bool, true}
use mathlib.Core.Option.{Option, none, some}
use mathlib.Core.Path.{◌≡◌}
use native.Mathlib.Omega.{arith}

abbrev pub Table {ℓ} : Type ℓ → Type ℓ
Table A = Text → Option A

module _ {ℓ} {A : Type ℓ} where
  abbrev pub put : Table A → Text → A → Table A
  put rows id row j = if eq_text id j then some row else rows j

  -- The row that an `UPDATE … WHERE id = ? AND …` changes, if there is one.
  abbrev pub row_where : Table A → Text → (A → Bool) → Option A
  row_where rows id test = elim (rows id) [
    | none ↦ none
    | some row ↦ if test row then some row else none
  ]

  pub row_where-eq-some :
      (rows : Table A) (id : Text) (test : A → Bool) {row : A}
      → row_where rows id test ≡ some row
      → (rows id ≡ some row) × (test row ≡ true)
  row_where-eq-some rows id test h = (ground arith, ground arith)
