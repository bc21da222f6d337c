-- ===== src/Rotations/Secrets.antt =====
-- What a table holds, as the plain texts that its rows open to under the keys of their versions: a
-- batch leaves it as it was.

use configdeck.Crypto.Outcome.{Outcome}
use configdeck.Prelude.{
  ℕ, zero, suc, ◌≡◌, ◌≢◌, refl, sym, Bool, true, List, [], ◌∷◌, Text, lt_text, filter, All, All-map,
  All-zip, Bool-cases, inl, inr, take,
}
use configdeck.Rotations.Batch.{Operation, batch_size, insert_by_id, sort_by_id, refers, batch_rows}
use configdeck.Rotations.{CipherTable}

module _ {ℓ κ} {A : Type ℓ} where
  All-filter :
      (P : A → Type κ) (t : A → Bool) (xs : List A)
      → All P xs
      → All (λ x. P x × (t x ≡ true)) (filter t xs)
  All-filter P t [] h = tt
  All-filter P t (x ∷ xs) h = elim (Bool-cases (t x)) [
    | inl e ↦ rw e ((h.0, e), All-filter P t xs h.1)
    | inr e ↦ rw e (All-filter P t xs h.1)
  ]

  All-take : (P : A → Type κ) (n : ℕ) (xs : List A) → All P xs → All P (take n xs)
  All-take P zero xs h = tt
  All-take P (suc n) [] h = tt
  All-take P (suc n) (x ∷ xs) h = (h.0, All-take P n xs h.1)

module _ {Row : Type 0} (table : CipherTable Row) where
  All-insert_by_id :
      (P : Row → Type 0) (x : Row) (ys : List Row)
      → P x
      → All P ys
      → All P (insert_by_id table x ys)
  unfolding insert_by_id
  All-insert_by_id P x [] p q = (p, tt)
  All-insert_by_id P x (y ∷ ys) p q = elim (Bool-cases (lt_text (table.id y) (table.id x))) [
    | inl e ↦ rw e (q.0, All-insert_by_id P x ys p q.1)
    | inr e ↦ rw e (p, q)
  ]

  All-sort_by_id : (P : Row → Type 0) (xs : List Row) → All P xs → All P (sort_by_id table xs)
  unfolding sort_by_id
  All-sort_by_id P [] h = tt
  All-sort_by_id P (x ∷ xs) h =
      All-insert_by_id P x (sort_by_id table xs) h.0 (All-sort_by_id P xs h.1)

  -- Identifiers are primary keys.
  abbrev pub IsDistinct : List Row → Type 0
  IsDistinct [] = Unit
  IsDistinct (r ∷ rs) = All (λ x. table.id x ≢ table.id r) rs × IsDistinct rs

  -- The row that has the identifier of `r` is `r`.
  abbrev pub Owns : List Row → Row → Type 0
  Owns rows r = All (λ x. table.id x ≡ table.id r → x ≡ r) rows

  -- The three facts on the rows of a table say that each is the only one of its identifier.
  All-Owns : (rows : List Row) → IsDistinct rows → All (Owns rows) rows
  All-Owns [] d = tt
  All-Owns (r ∷ rs) d = (
    (λ e. refl, All-map (λ x. table.id x ≢ table.id r) _ (λ x n e. absurd (n e)) rs d.0),
    All-map (λ y. (table.id y ≢ table.id r) × Owns rs y) (Owns (r ∷ rs))
        (λ y h. (λ e. absurd (h.0 (sym e)), h.1)) rs
        (All-zip (λ y. table.id y ≢ table.id r) (Owns rs) rs d.0 (All-Owns rs d.1)),
  )

  -- Each row of the old table that a batch takes, and that the table still holds under the old key,
  -- is there as it was.
  abbrev pub AreUnwritten : Operation → List Row → List Row → Type 0
  AreUnwritten operation read rows =
      All
        (λ r.
          refers table operation.environment_id operation.source_dek_version r ≡ true
          → All
              (λ x.
                table.id x ≡ table.id r
                → table.dek_version x ≡ operation.source_dek_version
                → x ≡ r)
              rows)
        read

  pub AreUnwritten-refl :
      (operation : Operation) (rows : List Row) → IsDistinct rows → AreUnwritten operation rows rows
  AreUnwritten-refl operation rows d =
      All-map (Owns rows) _
        (λ r o f. All-map (λ x. table.id x ≡ table.id r → x ≡ r) _ (λ x k e v. k e) rows o) rows
        (All-Owns rows d)

  -- A batch takes rows of the environment that are sealed under the old key, out of the table.
  pub All-batch_rows :
      (P : Row → Type 0) (operation : Operation) (rows : List Row) {batch : List Row}
      → All P rows
      → batch_rows table operation rows ≡ batch
      → All
          (λ r. P r × (refers table operation.environment_id operation.source_dek_version r ≡ true))
          batch
  unfolding batch_rows
  All-batch_rows P operation rows d e = rw (← e) (
      All-take _ batch_size _ (
        All-sort_by_id _ _ (
          All-filter P (refers table operation.environment_id operation.source_dek_version) rows
            d)))

  module _ (keys : Text → ℕ → Text) where
    abbrev pub reading : Row → Outcome Text
    reading r =
        table.open_row (keys (table.environment_id r) (table.dek_version r)) (table.dek_version r) r

    -- The identifiers of a table with the plain texts.
    abbrev pub contents : List Row → List (Text × Outcome Text)
    contents [] = []
    contents (r ∷ rs) = (table.id r, reading r) ∷ contents rs

    pub reading-at :
        (r : Row) (e : Text) (v : ℕ)
        → table.environment_id r ≡ e
        → table.dek_version r ≡ v
        → reading r ≡ table.open_row (keys e v) v r
    reading-at r e v p q = cc
