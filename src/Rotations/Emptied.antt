-- ===== src/Rotations/Emptied.antt =====
-- A turn of a rotation that ends its loop has found no record under the old key, in any table.
use configdeck.Crypto.Manager.{Primitives}
use configdeck.Errors.{Result, ok, err, Result-cases}
use configdeck.Prelude.{
  ℕ, suc, ◌≤◌, ◌≡◌, refl, Bool, List, [], ◌∷◌, Option, Text, arith, length, filter, Bool-cases, inl,
  inr, List-cases, count_where, take,
}
use configdeck.Rotations.Batch.{
  Operation, checkpoint, insert_by_id, sort_by_id, refers, batch_rows, prepare_rows,
  update_cipher_rows, migrate_batch,
}
use configdeck.Rotations.Dek.{
  Db, Turn, done, stage, migrate_current_batch, migrate_history_batch, migrate_proposal_batch, turn,
  count_dek_references,
}
use configdeck.Rotations.{CipherTable, current_table, history_table, proposal_table}

count_where-filter {ℓ} :
    {A : Type ℓ} (p : A → Bool) (xs : List A) → filter p xs ≡ [] → count_where p xs ≡ 0
count_where-filter p [] h = refl
count_where-filter p (x ∷ xs) h = elim (Bool-cases (p x)) [
  | inl e ↦ absurd (ground arith)
  | inr e ↦ ground (arith, count_where-filter p xs (ground arith))
]

module _ {Row : Type 0} (table : CipherTable Row) where
  insert_by_id_nonempty : (x : Row) (ys : List Row) → insert_by_id table x ys ≡ [] → ⊥
  unfolding insert_by_id
  insert_by_id_nonempty x [] h = cc
  insert_by_id_nonempty x (y ∷ ys) h = ground arith

  sort_by_id-eq-[] : (xs : List Row) → sort_by_id table xs ≡ [] → xs ≡ []
  unfolding sort_by_id
  sort_by_id-eq-[] [] h = refl
  sort_by_id-eq-[] (x ∷ xs) h = absurd (insert_by_id_nonempty x (sort_by_id table xs) h)

  take-eq-[] : (n : ℕ) (xs : List Row) → take (suc n) xs ≡ [] → xs ≡ []
  take-eq-[] n [] h = refl
  take-eq-[] n (x ∷ xs) h = cc

  batch_rows-eq-[] :
      (operation : Operation) (rows : List Row)
      → batch_rows table operation rows ≡ []
      → count_where (refers table operation.environment_id operation.source_dek_version) rows ≡ 0
  unfolding batch_rows
  batch_rows-eq-[] operation rows h =
      count_where-filter (refers table operation.environment_id operation.source_dek_version) rows
        (sort_by_id-eq-[] _ (take-eq-[] 63 _ h))

  -- A batch that migrates nothing has found nothing, and leaves the table as it is.
  migrate_batch_empty :
      (operation : Operation) (old_dek new_dek : Text) (random : Text → Option Text)
      (read rows : List Row) (os : List Operation) {r : ℕ × List Row × List Operation}
      → migrate_batch table operation old_dek new_dek random read rows os ≡ ok r
      → r.0 ≡ 0
      → (count_where (refers table operation.environment_id operation.source_dek_version) read ≡ 0)
        × (r.1 ≡ rows)
  unfolding migrate_batch
  migrate_batch_empty operation old_dek new_dek random read rows os {r} h z =
      elim (List-cases (batch_rows table operation read)) [
        | inl e ↦ (batch_rows-eq-[] operation read e, ground arith)
        | inr (first, others, e) ↦
            elim (Result-cases
              (prepare_rows table operation old_dek new_dek random (first ∷ others))) [
                | inr (f, p) ↦ absurd (ground arith)
                | inl (prepared, p) ↦
                    elim (Result-cases
                      (update_cipher_rows table operation old_dek new_dek prepared rows)) [
                        | inr (f, q) ↦ absurd (ground arith)
                        | inl (rows', q) ↦
                            elim (Result-cases
                              (checkpoint operation (length (first ∷ others)) os)) [
                                | inr (f, c) ↦ absurd (ground arith)
                                | inl (os', c) ↦ absurd (ground arith)
                              ]
                      ]
              ]
      ]

stage-done :
    (operation : Operation) (code : Text) (db : Db) (m : Result (ℕ × Db)) (rest : Db → Turn)
    {db' : Db}
    → stage operation code db m rest ≡ done db'
    → (n : ℕ) × (d : Db) × (m ≡ ok (n, d)) × (n ≡ 0) × (rest d ≡ done db')
stage-done operation code db (err e) rest h = cc
stage-done operation code db (ok (n, d)) rest h = (n, d, refl, ground arith, ground arith)

module _ (lib : Primitives) where
  -- No record of the operation's environment is sealed under the old key.
  abbrev pub IsFree : Operation → Db → Type 0
  IsFree operation db =
      count_dek_references lib operation.environment_id operation.source_dek_version db ≡ 0

  -- The second database has, in each of the three tables, no more records under the old key.
  pub record AddsNone (operation : Operation) (db db' : Db) : Type 0 where
    pub variables :
        count_where
          (refers (current_table lib) operation.environment_id operation.source_dek_version)
          db'.variables
        ≤ count_where
            (refers (current_table lib) operation.environment_id operation.source_dek_version)
            db.variables
    pub variable_versions :
        count_where
          (refers (history_table lib) operation.environment_id operation.source_dek_version)
          db'.variable_versions
        ≤ count_where
            (refers (history_table lib) operation.environment_id operation.source_dek_version)
            db.variable_versions
    pub items :
        count_where
          (refers (proposal_table lib) operation.environment_id operation.source_dek_version)
          db'.items
        ≤ count_where
            (refers (proposal_table lib) operation.environment_id operation.source_dek_version)
            db.items

  module _ (operation : Operation) (old_dek new_dek : Text) (random : Text → Option Text) where
    current_empty :
        (read db d : Db) (n : ℕ)
        → migrate_current_batch lib operation old_dek new_dek random read db ≡ ok (n, d)
        → n ≡ 0
        → (count_where
              (refers (current_table lib) operation.environment_id operation.source_dek_version)
              read.variables
            ≡ 0)
          × (d.variables ≡ db.variables)
    unfolding migrate_current_batch
    current_empty read db d n h z =
        elim (Result-cases (
          migrate_batch (current_table lib) operation old_dek new_dek random read.variables
            db.variables db.operations)) [
              | inr (e, p) ↦ absurd (ground arith)
              | inl (b, p) ↦
                  let (none_left, same) =
                    migrate_batch_empty (current_table lib) operation old_dek new_dek random
                      read.variables db.variables db.operations p (ground arith) in
                  (none_left, ground (arith, same))
            ]

    history_empty :
        (read db d : Db) (n : ℕ)
        → migrate_history_batch lib operation old_dek new_dek random read db ≡ ok (n, d)
        → n ≡ 0
        → (count_where
              (refers (history_table lib) operation.environment_id operation.source_dek_version)
              read.variable_versions
            ≡ 0)
          × (d.variable_versions ≡ db.variable_versions)
          × (d.variables ≡ db.variables)
    unfolding migrate_history_batch
    history_empty read db d n h z =
        elim (Result-cases (
          migrate_batch (history_table lib) operation old_dek new_dek random read.variable_versions
            db.variable_versions db.operations)) [
              | inr (e, p) ↦ absurd (ground arith)
              | inl (b, p) ↦
                  let (none_left, same) =
                    migrate_batch_empty (history_table lib) operation old_dek new_dek random
                      read.variable_versions db.variable_versions db.operations p (ground arith) in
                  (none_left, ground (arith, same), ground arith)
            ]

    proposal_empty :
        (read db d : Db) (n : ℕ)
        → migrate_proposal_batch lib operation old_dek new_dek random read db ≡ ok (n, d)
        → n ≡ 0
        → (count_where
              (refers (proposal_table lib) operation.environment_id operation.source_dek_version)
              read.items
            ≡ 0)
          × (d.items ≡ db.items)
          × (d.variables ≡ db.variables)
          × (d.variable_versions ≡ db.variable_versions)
    unfolding migrate_proposal_batch
    proposal_empty read db d n h z =
        elim (Result-cases (
          migrate_batch (proposal_table lib) operation old_dek new_dek random read.items db.items
            db.operations)) [
              | inr (e, p) ↦ absurd (ground arith)
              | inl (b, p) ↦
                  let (none_left, same) =
                    migrate_batch_empty (proposal_table lib) operation old_dek new_dek random
                      read.items db.items db.operations p (ground arith) in
                  (none_left, ground (arith, same), ground arith, ground arith)
            ]

    pub turn-done :
        (act : ℕ → Db → Db) (db : Db) {db' : Db}
        → ((i : ℕ) (d : Db) → AddsNone operation d (act i d))
        → turn lib operation old_dek new_dek random act db ≡ done db'
        → IsFree operation db'
    unfolding turn count_dek_references
    turn-done act db {db'} q h =
        let (n, d, p, z, h1) = stage-done operation _ (act 0 db) _ _ h in
        let (n', d', p', z', h2) = stage-done operation _ (act 1 d) _ _ h1 in
        let (n'', d'', p'', z'', h3) = stage-done operation _ (act 2 d') _ _ h2 in
        let (first, a) = current_empty db (act 0 db) d n p z in
        let (second, b, b') = history_empty d (act 1 d) d' n' p' z' in
        let (third, c, c', c'') = proposal_empty d' (act 2 d') d'' n'' p'' z'' in
        let q0 = q 0 db in
        let q1 = q 1 d in
        let q2 = q 2 d' in
        let last : d'' ≡ db' = cc in
        rw (← last) (
          ground (
            arith, first, second, third, a, b, b', c, c', c'', q0.variables, q1.variables,
            q1.variable_versions, q2.variables, q2.variable_versions, q2.items,
          ))
