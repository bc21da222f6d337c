-- ===== src/Rotations/Runs.antt =====
-- A batch of the variables that another run of the same rotation migrates, as an instance of what a
-- rotation lets other sessions do.
use configdeck.Crypto.Manager.{Primitives, EncryptedBlob}
use configdeck.Errors.{ok, err, ◌>>=◌, >>=-eq-ok, Result-cases}
use configdeck.Prelude.{
  ℕ, ◌≡◌, ◌≢◌, refl, sym, ◌∙◌, List, [], ◌∷◌, Option, Text, arith, All, All-map, Bool-cases, inl,
  inr, List-cases, update_where, length,
}
use configdeck.Rotations.Batch.{
  Operation, is_source, update_cipher_row, update_cipher_rows, prepare_rows, migrate_batch,
  batch_rows, checkpoint,
}
use configdeck.Rotations.Dek.{Db, migrate_current_batch}
use configdeck.Rotations.Kept.{AreNonces}
use configdeck.Rotations.Laws.{IsLawful, current_table-IsLawful}
use configdeck.Rotations.Refines.{current-Keeps}
use configdeck.Rotations.Rely.{Allows, Keeps, Keeps-refl}
use configdeck.Rotations.Secrets.{AreUnwritten, AreUnwritten-refl}
use configdeck.Rotations.{CipherTable, current_table, history_table, proposal_table}

module _ {Row : Type 0} (table : CipherTable Row) (law : IsLawful table) (operation : Operation)
    (old_dek new_dek : Text)
    (apart : operation.target_dek_version ≢ operation.source_dek_version) where
  -- The record of the identifier of `s` is `s`, if it is under the old key.
  abbrev IsStill : Row → List Row → Type 0
  IsStill s rows =
      All
        (λ x. table.id x ≡ table.id s → table.dek_version x ≡ operation.source_dek_version → x ≡ s)
        rows

  IsStill-update :
      (r s : Row) (b : EncryptedBlob) (rows : List Row)
      → IsStill s rows
      → IsStill s (
          update_where
            (is_source table operation old_dek new_dek r)
            (table.stored operation.target_dek_version b)
            rows)
  IsStill-update r s b [] h = tt
  IsStill-update r s b (x ∷ xs) h =
      elim (Bool-cases (is_source table operation old_dek new_dek r x)) [
        | inr e ↦ rw e (h.0, IsStill-update r s b xs h.1)
        | inl e ↦ rw e (
          λ i v. absurd (apart (sym (law.version_stored operation.target_dek_version b x) ∙ v)),
          IsStill-update r s b xs h.1,
        )
      ]

  update_cipher_rows-IsStill :
      (prepared : List (Row × EncryptedBlob)) (s : Row) (rows : List Row) {rows' : List Row}
      → update_cipher_rows table operation old_dek new_dek prepared rows ≡ ok rows'
      → IsStill s rows
      → IsStill s rows'
  unfolding update_cipher_rows update_cipher_row
  update_cipher_rows-IsStill [] s rows {rows'} h i = let same : rows ≡ rows' = cc in rw (← same) i
  update_cipher_rows-IsStill ((r, b) ∷ prepared) s rows {rows'} h i =
      let (mid, e, g) =
        >>=-eq-ok (update_cipher_row table operation old_dek new_dek r b rows) _ h in
      let after =
        update_where (is_source table operation old_dek new_dek r)
          (table.stored operation.target_dek_version b) rows in
      let written : mid ≡ after = ground arith in
      let next : update_cipher_rows table operation old_dek new_dek prepared after ≡ ok rows' =
        rw (← written) g in
      update_cipher_rows-IsStill prepared s after next (IsStill-update r s b rows i)

  migrate_batch-AreUnwritten :
      (random : Text → Option Text) (rows : List Row) (os : List Operation)
      {r : ℕ × List Row × List Operation}
      → migrate_batch table operation old_dek new_dek random rows rows os ≡ ok r
      → AreUnwritten table operation rows rows
      → AreUnwritten table operation rows r.1
  unfolding migrate_batch
  migrate_batch-AreUnwritten random rows os {r} h u =
      elim (List-cases (batch_rows table operation rows)) [
        | inl e ↦ let same : r.1 ≡ rows = ground arith in rw same u
        | inr (first, others, e) ↦
            let all = first ∷ others in
            let (prepared, p, h1) =
              >>=-eq-ok (prepare_rows table operation old_dek new_dek random all)
                (λ prepared.
                  update_cipher_rows table operation old_dek new_dek prepared rows >>= λ rows'.
                  checkpoint operation (length all) os >>= λ os'. ok (length all, rows', os'))
                (sym (rw (migrate_batch, e) refl) ∙ h) in
            let (rows', q, h2) =
              >>=-eq-ok (update_cipher_rows table operation old_dek new_dek prepared rows) _ h1 in
            let (os', c, h3) = >>=-eq-ok (checkpoint operation (length all) os) _ h2 in
            let same : r.1 ≡ rows' = cc in
            rw same
              (All-map _ _ (λ s k f. update_cipher_rows-IsStill prepared s rows q (k f)) rows u)
      ]

module _ (lib : Primitives) (operation : Operation) (keys : Text → ℕ → Text) where
  -- Doing nothing is allowed.
  pub idle-Allows : (db : Db) → Allows lib operation keys db db
  unfolding Allows Keeps
  idle-Allows db k = (
    Keeps-refl lib operation keys db k,
    record {
      variables = AreUnwritten-refl (current_table lib) operation db.variables k.variables;
      variable_versions =
          AreUnwritten-refl (history_table lib) operation db.variable_versions k.variable_versions;
      items = AreUnwritten-refl (proposal_table lib) operation db.items k.items;
    },
  )

  -- Another session migrates a batch of the variables, if it can.
  abbrev pub another_batch : Text → Text → (Text → Option Text) → Db → Db
  another_batch old_dek new_dek random db =
      elim (migrate_current_batch lib operation old_dek new_dek random db db) [
        | err e ↦ db
        | ok r ↦ r.1
      ]

  pub another_batch-Allows :
      (old_dek new_dek : Text) (random : Text → Option Text) (db : Db)
      → keys operation.environment_id operation.source_dek_version ≡ old_dek
      → keys operation.environment_id operation.target_dek_version ≡ new_dek
      → operation.target_dek_version ≢ operation.source_dek_version
      → AreNonces random
      → Allows lib operation keys db (another_batch old_dek new_dek random db)
  unfolding Allows Keeps migrate_current_batch
  another_batch-Allows old_dek new_dek random db o n a nonces k =
      let (same, still) = idle-Allows db k in
      elim (Result-cases (migrate_current_batch lib operation old_dek new_dek random db db)) [
        | inr (e, p) ↦ rw (another_batch, p) (same, still)
        | inl (r, p) ↦
            let (moved, q, g) =
              >>=-eq-ok
                (migrate_batch (current_table lib) operation old_dek new_dek random db.variables
                  db.variables db.operations)
                _ p in
            let made : r.1 ≡ record db { variables = moved.1; operations = moved.2 } =
              ground arith in
            let unwritten =
              migrate_batch-AreUnwritten (current_table lib) (current_table-IsLawful lib) operation
                old_dek new_dek a random db.variables db.operations q still.variables in
            rw (another_batch, p)
              (
                current-Keeps lib operation keys old_dek new_dek random o n a nonces db db
                    (idle-Allows db) r p k,
                rw made (record {
                  variables = unwritten;
                  variable_versions = still.variable_versions;
                  items = still.items;
                }),
              )
      ]
