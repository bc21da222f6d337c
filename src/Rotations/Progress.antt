-- ===== src/Rotations/Progress.antt =====
-- A rotation ends: each turn of its loop that goes on has used up room of an operation.

use configdeck.Crypto.Manager.{Primitives, CryptoManager}
use configdeck.Errors.{AppError, Result, ok, err, Result-cases}
use configdeck.Prelude.{
  ℕ, zero, suc, ◌+◌, ◌-◌, ◌≤◌, ◌<◌, ◌≡◌, refl, List, [], ◌∷◌, Option, some, Text, arith, length,
  update_where, Bool-cases, ◌⊎◌, inl, inr, List-cases, count_where,
}
use configdeck.Rotations.Batch.{
  Operation, has_room, checkpoint, batch_rows, prepare_rows, update_cipher_rows, migrate_batch,
}
use configdeck.Rotations.Dek.{
  Db, Turn, again, done, failing, stage, migrate_current_batch, migrate_history_batch,
  migrate_proposal_batch, turn, migrate_loop, load_dek, migrate_dek_batches,
}
use configdeck.Rotations.{CipherTable, current_table, history_table, proposal_table}

-- What the operations have left to migrate.
abbrev pub room : List Operation → ℕ
room [] = 0
room (o ∷ os) = (o.total_records - o.processed_records) + room os

room-update :
    (operation : Operation) (n : ℕ) (os : List Operation)
    → room (
          update_where
            (has_room operation (suc n))
            (λ o. record o { processed_records = o.processed_records + suc n })
            os)
        + count_where (has_room operation (suc n)) os
      ≤ room os
room-update operation n [] = omega arith
room-update operation n (o ∷ os) = elim (Bool-cases (has_room operation (suc n) o)) [
  | inl e ↦ ground (arith, room-update operation n os)
  | inr e ↦ ground (arith, room-update operation n os)
]

room-checkpoint :
    (operation : Operation) (n : ℕ) (os : List Operation) {os' : List Operation}
    → checkpoint operation (suc n) os ≡ ok os'
    → room os' < room os
unfolding checkpoint
room-checkpoint operation n os h = ground (arith, room-update operation n os)

module _ {Row : Type 0} (table : CipherTable Row) (operation : Operation)
    (old_dek new_dek : Text) where
  -- A batch that migrates records uses up room; an empty one changes nothing.
  room-migrate_batch :
      (random : Text → Option Text) (read rows : List Row) (os : List Operation)
      {r : ℕ × List Row × List Operation}
      → migrate_batch table operation old_dek new_dek random read rows os ≡ ok r
      → ((r.0 ≡ 0) × (r.2 ≡ os)) ⊎ ((0 < r.0) × (room r.2 < room os))
  unfolding migrate_batch
  room-migrate_batch random read rows os {r} h =
      elim (List-cases (batch_rows table operation read)) [
        | inl e ↦ inl (ground arith, ground arith)
        | inr (first, others, e) ↦
            elim (Result-cases
              (prepare_rows table operation old_dek new_dek random (first ∷ others))) [
                | inr (f, p) ↦ absurd (ground arith)
                | inl (prepared, p) ↦
                    elim (Result-cases
                      (update_cipher_rows table operation old_dek new_dek prepared rows)) [
                        | inr (f, q) ↦ absurd (ground arith)
                        | inl (rows', q) ↦
                            elim (Result-cases
                              (checkpoint operation (length (first ∷ others)) os)) [
                                | inr (f, c) ↦ absurd (ground arith)
                                | inl (os', c) ↦ inr (
                                  ground arith,
                                  ground (arith, room-checkpoint operation (length others) os c),
                                )
                              ]
                      ]
              ]
      ]

before : {x y z : ℕ} → x < y → y ≤ z → x < z
before p q = omega (arith, p, q)

-- What a batch does with the room.
IsBatch : Db → ℕ × Db → Type 0
IsBatch db r =
    ((r.0 ≡ 0) × (r.1.operations ≡ db.operations))
    ⊎ ((0 < r.0) × (room r.1.operations < room db.operations))

stage-again :
    (operation : Operation) (code : Text) (db : Db) (m : Result (ℕ × Db)) (rest : Db → Turn)
    {db' : Db}
    → ((r : ℕ × Db) → m ≡ ok r → IsBatch db r)
    → ((d : Db) → rest d ≡ again db' → room db'.operations < room d.operations)
    → stage operation code db m rest ≡ again db'
    → room db'.operations < room db.operations
unfolding IsBatch
stage-again operation code db (err e) rest p q h = cc
stage-again operation code db (ok (n, d)) rest {db'} p q h = elim (p (n, d) refl) [
  | inr (more, less) ↦ let same : d ≡ db' = ground arith in rw (← same) less
  | inl (none_left, same) ↦ let later : rest d ≡ again db' = ground arith in rw (← same) (q d later)
]

module _ (lib : Primitives) (operation : Operation) (old_dek new_dek : Text)
    (random : Text → Option Text) where
  current-IsBatch :
      (read db : Db) (r : ℕ × Db)
      → migrate_current_batch lib operation old_dek new_dek random read db ≡ ok r
      → IsBatch db r
  unfolding migrate_current_batch IsBatch
  current-IsBatch read db r h =
      elim (Result-cases (
        migrate_batch (current_table lib) operation old_dek new_dek random read.variables
          db.variables db.operations)) [
            | inr (e, p) ↦ absurd (ground arith)
            | inl (b, p) ↦
                let same : r ≡ (b.0, record db { variables = b.1; operations = b.2 }) =
                  ground arith in
                rw same (
                  room-migrate_batch (current_table lib) operation old_dek new_dek random
                    read.variables db.variables db.operations p)
          ]

  history-IsBatch :
      (read db : Db) (r : ℕ × Db)
      → migrate_history_batch lib operation old_dek new_dek random read db ≡ ok r
      → IsBatch db r
  unfolding migrate_history_batch IsBatch
  history-IsBatch read db r h =
      elim (Result-cases (
        migrate_batch (history_table lib) operation old_dek new_dek random read.variable_versions
          db.variable_versions db.operations)) [
            | inr (e, p) ↦ absurd (ground arith)
            | inl (b, p) ↦
                let same : r ≡ (b.0, record db { variable_versions = b.1; operations = b.2 }) =
                  ground arith in
                rw same (
                  room-migrate_batch (history_table lib) operation old_dek new_dek random
                    read.variable_versions db.variable_versions db.operations p)
          ]

  proposal-IsBatch :
      (read db : Db) (r : ℕ × Db)
      → migrate_proposal_batch lib operation old_dek new_dek random read db ≡ ok r
      → IsBatch db r
  unfolding migrate_proposal_batch IsBatch
  proposal-IsBatch read db r h =
      elim (Result-cases (
        migrate_batch (proposal_table lib) operation old_dek new_dek random read.items db.items
          db.operations)) [
            | inr (e, p) ↦ absurd (ground arith)
            | inl (b, p) ↦
                let same : r ≡ (b.0, record db { items = b.1; operations = b.2 }) = ground arith in
                rw same (
                  room-migrate_batch (proposal_table lib) operation old_dek new_dek random
                    read.items db.items db.operations p)
          ]

  turn-again :
      (act : ℕ → Db → Db) (db : Db) {db' : Db}
      → ((i : ℕ) (d : Db) → room (act i d).operations ≤ room d.operations)
      → turn lib operation old_dek new_dek random act db ≡ again db'
      → room db'.operations < room db.operations
  unfolding turn
  turn-again act db {db'} q h =
      before
        (stage-again operation _ (act 0 db) _ _ (current-IsBatch db (act 0 db))
          (λ d e.
            before
              (stage-again operation _ (act 1 d) _ _ (history-IsBatch d (act 1 d))
                (λ d' e'.
                  before
                    (stage-again operation _ (act 2 d') _ _ (proposal-IsBatch d' (act 2 d'))
                      (λ d'' e''. cc) e')
                    (q 2 d'))
                e)
              (q 1 d))
          h)
        (q 0 db)

pub Turn-cases :
    (t : Turn)
    → ((db : Db) × (t ≡ again db))
      ⊎ (((db : Db) × (t ≡ done db)) ⊎ ((e : AppError) × (db : Db) × (t ≡ failing e db)))
Turn-cases (again db) = inl (db, refl)
Turn-cases (done db) = inr (inl (db, refl))
Turn-cases (failing e db) = inr (inr (e, db, refl))

module _ (lib : Primitives) where
  migrate_loop-ends :
      (operation : Operation) (old_dek new_dek : Text) (fuel : ℕ) (acts : ℕ → ℕ → Db → Db)
      (draws : ℕ → Text → Option Text) (db : Db)
      → ((n i : ℕ) (d : Db) → room (acts n i d).operations ≤ room d.operations)
      → room db.operations < fuel
      → (r : Result (Unit {0}) × Db) × (migrate_loop lib operation old_dek new_dek fuel acts draws
            db
          ≡ some r)
  unfolding migrate_loop
  migrate_loop-ends operation old_dek new_dek zero acts draws db q h = absurd (omega (arith, h))
  migrate_loop-ends operation old_dek new_dek (suc fuel) acts draws db q h =
      elim (Turn-cases (turn lib operation old_dek new_dek (draws fuel) (acts fuel) db)) [
        | inl (db', e) ↦
            let less =
              turn-again lib operation old_dek new_dek (draws fuel) (acts fuel) db (q fuel) e in
            rw (migrate_loop, e)
              (migrate_loop-ends operation old_dek new_dek fuel acts draws db' q
                (omega (arith, h, less)))
        | inr (inl (db', e)) ↦ rw (migrate_loop, e) (_, refl)
        | inr (inr (f, db', e)) ↦ rw (migrate_loop, e) (_, refl)
      ]

  pub migrate_dek_batches-ends :
      (manager : CryptoManager) (operation : Operation) (fuel : ℕ) (acts : ℕ → ℕ → Db → Db)
      (draws : ℕ → Text → Option Text) (db : Db)
      → ((n i : ℕ) (d : Db) → room (acts n i d).operations ≤ room d.operations)
      → room db.operations < fuel
      → (r : Result (Unit {0}) × Db) × (migrate_dek_batches lib manager operation fuel acts draws db
          ≡ some r)
  unfolding migrate_dek_batches
  migrate_dek_batches-ends manager operation fuel acts draws db q0 h =
      elim (Result-cases
        (load_dek lib manager operation.environment_id operation.source_dek_version db)) [
          | inr (e, p) ↦ rw (migrate_dek_batches, p) (_, refl)
          | inl (old_dek, p) ↦
              elim (Result-cases
                (load_dek lib manager operation.environment_id operation.target_dek_version db)) [
                  | inr (e, q) ↦ rw (migrate_dek_batches, p, q) (_, refl)
                  | inl (new_dek, q) ↦
                      rw (migrate_dek_batches, p, q)
                        (migrate_loop-ends operation old_dek new_dek fuel acts draws db q0 h)
                ]
        ]
