-- ===== src/Rotations/Completes.antt =====
-- A loop that ends without an error has left no record under the old key.
use configdeck.Crypto.Manager.{Primitives, CryptoManager}
use configdeck.Errors.{Result, ok, Result-cases}
use configdeck.Prelude.{
  ℕ, zero, suc, ◌≤◌, ◌<◌, ◌≡◌, refl, sym, ◌∙◌, Option, none, some, Text, arith, inl, inr,
  update_where,
}
use configdeck.Rotations.Batch.{Operation, verifying}
use configdeck.Rotations.Dek.{
  Db, turn, migrate_loop, load_dek, migrate_dek_batches, count_dek_references, is_migrating_row,
}
use configdeck.Rotations.Progress.{Turn-cases, room, migrate_dek_batches-ends}
use configdeck.Rotations.Emptied.{IsFree, AddsNone, turn-done}

module _ (lib : Primitives) where
  migrate_loop-IsFree :
      (operation : Operation) (old_dek new_dek : Text) (fuel : ℕ) (acts : ℕ → ℕ → Db → Db)
      (draws : ℕ → Text → Option Text) (db : Db) {r : Result (Unit {0}) × Db}
      → ((n i : ℕ) (d : Db) → AddsNone lib operation d (acts n i d))
      → migrate_loop lib operation old_dek new_dek fuel acts draws db ≡ some r
      → r.0 ≡ ok tt
      → IsFree lib operation r.1
  unfolding migrate_loop count_dek_references
  migrate_loop-IsFree operation old_dek new_dek zero acts draws db q h o = cc
  migrate_loop-IsFree operation old_dek new_dek (suc fuel) acts draws db {r} q h o =
      elim (Turn-cases (turn lib operation old_dek new_dek (draws fuel) (acts fuel) db)) [
        | inl (db', e) ↦
            let later : migrate_loop lib operation old_dek new_dek fuel acts draws db' ≡ some r =
              sym (rw (migrate_loop, e) refl) ∙ h in
            migrate_loop-IsFree operation old_dek new_dek fuel acts draws db' {r = r} q later o
        | inr (inl (db', e)) ↦
            let os =
              update_where (is_migrating_row operation)
                (λ x. record x { status = verifying; failure_code = none }) db'.operations in
            let last : r.1 ≡ record db' { operations = os } = ground arith in
            rw last (turn-done lib operation old_dek new_dek (draws fuel) (acts fuel) db (q fuel) e)
        | inr (inr (f, db', e)) ↦ absurd (ground arith)
      ]

  -- On fuel for the records that the operations have left, the batches of a rotation come to an
  -- answer, and where it is no error, no record of the environment is sealed under the old key any
  -- more; also where other sessions act in between, if they leave the operations no more to do than
  -- they find, and seal no records under the old key.
  pub migrate_dek_batches-completes :
      (manager : CryptoManager) (operation : Operation) (fuel : ℕ) (acts : ℕ → ℕ → Db → Db)
      (draws : ℕ → Text → Option Text) (db : Db)
      → ((n i : ℕ) (d : Db) → room (acts n i d).operations ≤ room d.operations)
      → ((n i : ℕ) (d : Db) → AddsNone lib operation d (acts n i d))
      → room db.operations < fuel
      → (r : Result (Unit {0}) × Db) × (migrate_dek_batches lib manager operation fuel acts draws db
          ≡ some r)
        × (r.0 ≡ ok tt
            → count_dek_references lib operation.environment_id operation.source_dek_version r.1
              ≡ 0)
  unfolding migrate_dek_batches
  migrate_dek_batches-completes manager operation fuel acts draws db quiet w h =
      let (r, e) =
        migrate_dek_batches-ends lib manager operation fuel acts draws db (λ n i d. omega arith)
          h in
      (
        r,
        e,
        λ o.
            elim (Result-cases
              (load_dek lib manager operation.environment_id operation.source_dek_version db)) [
                | inr (f, p) ↦ absurd (ground arith)
                | inl (old_dek, p) ↦
                    elim (Result-cases (
                      load_dek lib manager operation.environment_id operation.target_dek_version
                        db)) [
                          | inr (f, q) ↦ absurd (ground arith)
                          | inl (new_dek, q) ↦
                              migrate_loop-IsFree operation old_dek new_dek fuel acts draws db
                                {r = r} w (sym (rw (migrate_dek_batches, p, q) refl) ∙ e) o
                        ]
              ],
      )
