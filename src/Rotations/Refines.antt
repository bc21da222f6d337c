-- ===== src/Rotations/Refines.antt =====
-- The loop of a rotation, seen from the secrets: nothing happens to them, wherever it stops, and
-- what it counts as processed is what it has moved.
use configdeck.Crypto.Manager.{Primitives, CryptoManager}
use configdeck.Errors.{Result, ok, err, Result-cases, >>=-eq-ok}
use configdeck.Prelude.{
  ℕ, zero, suc, ◌≡◌, ◌≢◌, refl, sym, ◌∙◌, [], Option, none, some, Text, arith, inl, inr,
  update_where,
}
use configdeck.Rotations.Batch.{Operation, verifying, migrate_batch}
use configdeck.Rotations.Dek.{
  Db, migrate_current_batch, migrate_history_batch, migrate_proposal_batch, turn, migrate_loop,
  load_dek, migrate_dek_batches, is_migrating_row, count_dek_references,
}
use configdeck.Rotations.Kept.{AreNonces}
use configdeck.Rotations.Written.{migrate_batch-IsKeeping}
use configdeck.Rotations.Laws.{
  current_table-IsLawful, history_table-IsLawful, proposal_table-IsLawful,
}
use configdeck.Rotations.Progress.{Turn-cases}
use configdeck.Rotations.Rely.{
  state, secrets_under, IsKeyed, balance, IsKept-trans, Allows, Keeps, Keeps-trans, Keeps-refl,
  Allows-Keeps, operations-Keeps, stage-Keeps, moved,
}
use configdeck.Rotations.{current_table, history_table, proposal_table}

module _ (lib : Primitives) (operation : Operation) (keys : Text → ℕ → Text) where
  module _ (old_dek new_dek : Text) (random : Text → Option Text)
      (old_key : keys operation.environment_id operation.source_dek_version ≡ old_dek)
      (new_key : keys operation.environment_id operation.target_dek_version ≡ new_dek)
      (apart : operation.target_dek_version ≢ operation.source_dek_version)
      (nonces : AreNonces random) where
    pub current-Keeps :
        (read db : Db)
        → Allows lib operation keys read db
        → (r : ℕ × Db) → migrate_current_batch lib operation old_dek new_dek random read db ≡ ok r
        → Keeps lib operation keys read r.1
    unfolding balance migrate_current_batch Keeps Allows count_dek_references
    current-Keeps read db w r h k =
        let (mid, u) = w k in
        let (moved, p, g) =
          >>=-eq-ok
            (migrate_batch (current_table lib) operation old_dek new_dek random read.variables
              db.variables db.operations)
            _ h in
        let made : r.1 ≡ record db { variables = moved.1; operations = moved.2 } = ground arith in
        let b =
          migrate_batch-IsKeeping (current_table lib) (current_table-IsLawful lib) keys operation
            old_dek new_dek old_key new_key apart random read.variables db.variables db.operations p
            nonces mid.keyed.variables u.variables in
        rw made (
          IsKept-trans lib operation keys read db
            (record db { variables = moved.1; operations = moved.2 }) mid
            (record {
              secrets = rw b.same refl;
              keyed = record {
                variables = b.distinct;
                variable_versions = mid.keyed.variable_versions;
                items = mid.keyed.items;
              };
              same_keys = refl;
              balanced = omega (arith, b.balanced);
            }))

    history-Keeps :
        (read db : Db)
        → Allows lib operation keys read db
        → (r : ℕ × Db) → migrate_history_batch lib operation old_dek new_dek random read db ≡ ok r
        → Keeps lib operation keys read r.1
    unfolding balance migrate_history_batch Keeps Allows count_dek_references
    history-Keeps read db w r h k =
        let (mid, u) = w k in
        let (moved, p, g) =
          >>=-eq-ok
            (migrate_batch (history_table lib) operation old_dek new_dek random
              read.variable_versions db.variable_versions db.operations)
            _ h in
        let made : r.1 ≡ record db { variable_versions = moved.1; operations = moved.2 } =
          ground arith in
        let b =
          migrate_batch-IsKeeping (history_table lib) (history_table-IsLawful lib) keys operation
            old_dek new_dek old_key new_key apart random read.variable_versions db.variable_versions
            db.operations p nonces mid.keyed.variable_versions u.variable_versions in
        rw made (
          IsKept-trans lib operation keys read db
            (record db { variable_versions = moved.1; operations = moved.2 }) mid
            (record {
              secrets = rw b.same refl;
              keyed = record {
                variables = mid.keyed.variables;
                variable_versions = b.distinct;
                items = mid.keyed.items;
              };
              same_keys = refl;
              balanced = omega (arith, b.balanced);
            }))

    proposal-Keeps :
        (read db : Db)
        → Allows lib operation keys read db
        → (r : ℕ × Db) → migrate_proposal_batch lib operation old_dek new_dek random read db ≡ ok r
        → Keeps lib operation keys read r.1
    unfolding balance migrate_proposal_batch Keeps Allows count_dek_references
    proposal-Keeps read db w r h k =
        let (mid, u) = w k in
        let (moved, p, g) =
          >>=-eq-ok
            (migrate_batch (proposal_table lib) operation old_dek new_dek random read.items db.items
              db.operations)
            _ h in
        let made : r.1 ≡ record db { items = moved.1; operations = moved.2 } = ground arith in
        let b =
          migrate_batch-IsKeeping (proposal_table lib) (proposal_table-IsLawful lib) keys operation
            old_dek new_dek old_key new_key apart random read.items db.items db.operations p nonces
            mid.keyed.items u.items in
        rw made (
          IsKept-trans lib operation keys read db
            (record db { items = moved.1; operations = moved.2 }) mid
            (record {
              secrets = rw b.same refl;
              keyed = record {
                variables = mid.keyed.variables;
                variable_versions = mid.keyed.variable_versions;
                items = b.distinct;
              };
              same_keys = refl;
              balanced = omega (arith, b.balanced);
            }))

    turn-Keeps :
        (act : ℕ → Db → Db) (db : Db)
        → ((i : ℕ) (d : Db) → Allows lib operation keys d (act i d))
        → Keeps lib operation keys db (state (turn lib operation old_dek new_dek random act db))
    unfolding turn
    turn-Keeps act db w =
        stage-Keeps lib operation keys _ db (act 0 db) _ _
          (Allows-Keeps lib operation keys db (act 0 db) (w 0 db))
          (current-Keeps db (act 0 db) (w 0 db))
          (λ d.
            stage-Keeps lib operation keys _ d (act 1 d) _ _
              (Allows-Keeps lib operation keys d (act 1 d) (w 1 d))
              (history-Keeps d (act 1 d) (w 1 d))
              (λ d'.
                stage-Keeps lib operation keys _ d' (act 2 d') _ _
                  (Allows-Keeps lib operation keys d' (act 2 d') (w 2 d'))
                  (proposal-Keeps d' (act 2 d') (w 2 d'))
                  (λ d''. Keeps-refl lib operation keys d'')))

  migrate_loop-Keeps :
      (old_dek new_dek : Text) (fuel : ℕ) (acts : ℕ → ℕ → Db → Db) (draws : ℕ → Text → Option Text)
      (db : Db) {r : Result (Unit {0}) × Db}
      → keys operation.environment_id operation.source_dek_version ≡ old_dek
      → keys operation.environment_id operation.target_dek_version ≡ new_dek
      → operation.target_dek_version ≢ operation.source_dek_version
      → ((n : ℕ) → AreNonces (draws n))
      → ((n i : ℕ) (d : Db) → Allows lib operation keys d (acts n i d))
      → migrate_loop lib operation old_dek new_dek fuel acts draws db ≡ some r
      → Keeps lib operation keys db r.1
  unfolding migrate_loop
  migrate_loop-Keeps old_dek new_dek zero acts draws db o n a nonces w h = cc
  migrate_loop-Keeps old_dek new_dek (suc fuel) acts draws db {r} o n a nonces w h =
      let kept =
        turn-Keeps old_dek new_dek (draws fuel) o n a (nonces fuel) (acts fuel) db (w fuel) in
      elim (Turn-cases (turn lib operation old_dek new_dek (draws fuel) (acts fuel) db)) [
        | inl (db', e) ↦
            let later : migrate_loop lib operation old_dek new_dek fuel acts draws db' ≡ some r =
              sym (rw (migrate_loop, e) refl) ∙ h in
            Keeps-trans lib operation keys db db' r.1 (moved lib operation keys db e kept)
              (migrate_loop-Keeps old_dek new_dek fuel acts draws db' {r = r} o n a nonces w later)
        | inr (inl (db', e)) ↦
            let mark : Operation → Operation =
              λ x. record x { status = verifying; failure_code = none } in
            let os = update_where (is_migrating_row operation) mark db'.operations in
            let last : r.1 ≡ record db' { operations = os } = ground arith in
            rw last (
              Keeps-trans lib operation keys db db' (record db' { operations = os })
                (moved lib operation keys db e kept)
                (operations-Keeps lib operation keys db' (is_migrating_row operation) mark
                  (λ x. (refl, refl))))
        | inr (inr (f, db', e)) ↦
            let last : r.1 ≡ db' = ground arith in rw last (moved lib operation keys db e kept)
      ]

module _ (lib : Primitives) where
  -- The key of an environment and a version in the database, if it loads.
  abbrev pub key_of : CryptoManager → Db → Text → ℕ → Text
  key_of manager db environment_id v = elim (load_dek lib manager environment_id v db) [
    | ok dek ↦ dek
    | err e ↦ []
  ]

  -- Replacing a data key changes no secret: whether the batches of a rotation run to their end or
  -- stop at an error, each record of the three tables opens, under the keys of the database, which
  -- stay, to what it opened to before; and what the operation counts as processed has grown by just
  -- the records that are no longer sealed under the old key. This is so if nonces have 12 bytes,
  -- identifiers are primary keys, the two versions differ, and, between the reading of a batch and
  -- its transaction, other sessions do what keeps all this too and writes no record anew under the
  -- old key.
  pub migrate_dek_batches-refines :
      (manager : CryptoManager) (operation : Operation) (fuel : ℕ) (acts : ℕ → ℕ → Db → Db)
      (draws : ℕ → Text → Option Text) (db : Db) {r : Result (Unit {0}) × Db}
      → operation.target_dek_version ≢ operation.source_dek_version
      → ((n : ℕ) → AreNonces (draws n))
      → ((n i : ℕ) (d : Db) → Allows lib operation (key_of manager db) d (acts n i d))
      → IsKeyed lib db
      → migrate_dek_batches lib manager operation fuel acts draws db ≡ some r
      → (secrets_under lib (key_of manager db) r.1 ≡ secrets_under lib (key_of manager db) db)
        × (r.1.keys ≡ db.keys)
        × (balance lib operation r.1 ≡ balance lib operation db)
        × IsKeyed lib r.1
  unfolding migrate_dek_batches Keeps
  migrate_dek_batches-refines manager operation fuel acts draws db {r} a nonces w k h =
      elim (Result-cases
        (load_dek lib manager operation.environment_id operation.source_dek_version db)) [
          | inr (e, p) ↦ let same : r.1 ≡ db = ground arith in rw same (refl, refl, refl, k)
          | inl (old_dek, p) ↦
              elim (Result-cases
                (load_dek lib manager operation.environment_id operation.target_dek_version db)) [
                  | inr (e, q) ↦ let same : r.1 ≡ db = ground arith in rw same (refl, refl, refl, k)
                  | inl (new_dek, q) ↦
                      let looped : migrate_loop lib operation old_dek new_dek fuel acts draws db
                          ≡ some r =
                        sym (rw (migrate_dek_batches, p, q) refl) ∙ h in
                      let kept =
                        migrate_loop-Keeps lib operation (key_of manager db) old_dek new_dek fuel
                          acts draws db {r = r} (rw (key_of, p) refl) (rw (key_of, q) refl) a nonces
                          w looped k in
                      (kept.secrets, kept.same_keys, kept.balanced, kept.keyed)
                ]
        ]
