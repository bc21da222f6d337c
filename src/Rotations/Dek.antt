-- ===== src/Rotations/Dek.antt =====
-- `rotate_dek` of src/rotations/mod.rs and what it calls: a data key of an environment is replaced
-- in batches, each a transaction of its own, so that an error leaves the batches before it done and
-- a later call takes the operation up again. A batch is read before its transaction begins; what
-- other sessions commit in between is an argument. Fresh identifiers, keys and nonces are arguments; the
-- times that are written are left out. A rotation of the master key is completed in the transaction
-- that inserts it, so that no other operation is ever found unfinished but these.

use configdeck.Crypto.Manager.{Primitives, EncryptedBlob, CryptoManager, unwrap_dek}
use configdeck.Errors.{AppError, Result, ok, err, database, ◌>>=◌, ◌>>◌, ok_or}
use configdeck.Prelude.{
  ℕ, zero, suc, ◌+◌, Bool, true, false, ◌&&◌, List, [], ◌∷◌, Option, none, some, Text, codes,
  eq_text, ◌==◌, if◌then◌else◌, find, filter, update_where, count_where,
}
use configdeck.Rotations.Batch.{
  RotationStatus, verifying, completed, failed, Operation, is_migrating, or_crypto, refers,
  migrate_batch,
}
use configdeck.Rotations.{
  CurrentCipherRow, HistoryCipherRow, ProposalCipherRow, CipherTable, current_table, history_table,
  proposal_table,
}

pub data KeyStatus : Type 0 where
  active pending retired : KeyStatus

-- A row of environment_keys.
pub record KeyRow : Type 0 where
  pub environment_id : Text
  pub dek_version : ℕ
  pub kek_version : ℕ
  pub wrapped : Option EncryptedBlob
  pub status : KeyStatus

pub record EnvironmentRow : Type 0 where
  pub id : Text
  pub organization_id : Text

-- A line of audit_logs that a rotation writes.
pub record RotationAudit : Type 0 where
  pub actor_id : Text
  pub environment_id : Text
  pub source_dek_version : ℕ
  pub target_dek_version : ℕ
  pub record_count : ℕ
  pub reason_length : ℕ

pub record Db : Type 0 where
  pub environments : List EnvironmentRow
  pub variables : List CurrentCipherRow
  pub variable_versions : List HistoryCipherRow
  pub items : List ProposalCipherRow
  pub keys : List KeyRow
  pub active_fingerprint : Option Text
  pub operations : List Operation
  pub audit : List RotationAudit

abbrev pub is_open : RotationStatus → Bool
is_open completed = false
is_open failed = false
is_open _ = true

abbrev pub is_active : KeyStatus → Bool
is_active active = true
is_active _ = false

abbrev pub is_pending : KeyStatus → Bool
is_pending pending = true
is_pending _ = false

abbrev pub update_operations : (Operation → Bool) → (Operation → Operation) → Db → Db
update_operations test set db = record db { operations = update_where test set db.operations }

abbrev pub is_migrating_row : Operation → Operation → Bool
is_migrating_row operation o = eq_text o.id operation.id && is_migrating o.status

-- A failure of this diagnostic itself is only logged.
unfoldable pub record_rotation_issue : Operation → Text → Db → Db
record_rotation_issue operation code =
    update_operations (is_migrating_row operation) (λ o. record o { failure_code = some code })

-- Nobody else does anything.
abbrev pub idle : ℕ → ℕ → Db → Db
idle turn batch db = db

-- What a turn of the loop comes to.
pub data Turn : Type 0 where
  again : Db → Turn
  done : Db → Turn
  failing : AppError → Db → Turn

-- What one batch comes to, with what follows where it was empty.
abbrev pub stage : Operation → Text → Db → Result (ℕ × Db) → (Db → Turn) → Turn
stage operation code db (err e) rest = failing e (record_rotation_issue operation code db)
stage operation code db (ok (n, db')) rest = if n == 0 then rest db' else again db'

module _ (lib : Primitives) where
  unfoldable pub count_dek_references : Text → ℕ → Db → ℕ
  unfolding current_table history_table proposal_table
  count_dek_references environment_id v db =
      count_where (refers (current_table lib) environment_id v) db.variables
      + count_where (refers (history_table lib) environment_id v) db.variable_versions
      + count_where (refers (proposal_table lib) environment_id v) db.items

module _ (lib : Primitives) (operation : Operation) where
  module _ (old_dek new_dek : Text) (random : Text → Option Text) where
    unfoldable pub migrate_current_batch : Db → Db → Result (ℕ × Db)
    unfolding migrate_batch current_table
    migrate_current_batch read db = do
      r ←
          migrate_batch (current_table lib) operation old_dek new_dek random read.variables
            db.variables db.operations
      ok (r.0, record db { variables = r.1; operations = r.2 })

    unfoldable pub migrate_history_batch : Db → Db → Result (ℕ × Db)
    unfolding migrate_batch history_table
    migrate_history_batch read db = do
      r ←
          migrate_batch (history_table lib) operation old_dek new_dek random read.variable_versions
            db.variable_versions db.operations
      ok (r.0, record db { variable_versions = r.1; operations = r.2 })

    unfoldable pub migrate_proposal_batch : Db → Db → Result (ℕ × Db)
    unfolding migrate_batch proposal_table
    migrate_proposal_batch read db = do
      r ←
          migrate_batch (proposal_table lib) operation old_dek new_dek random read.items db.items
            db.operations
      ok (r.0, record db { items = r.1; operations = r.2 })

    -- One turn of the loop: at most one of its batches finds records, and draws nonces. `act` is
    -- what other sessions commit between the reading of each batch and its transaction.
    unfoldable pub turn : (ℕ → Db → Db) → Db → Turn
    unfolding migrate_current_batch migrate_history_batch migrate_proposal_batch
    turn act db =
        stage operation (codes "DEK_CURRENT_MIGRATION") (act 0 db)
          (migrate_current_batch db (act 0 db))
          (λ d.
            stage operation (codes "DEK_HISTORY_MIGRATION") (act 1 d)
              (migrate_history_batch d (act 1 d))
              (λ d'.
                stage operation (codes "DEK_PROPOSAL_MIGRATION") (act 2 d')
                  (migrate_proposal_batch d' (act 2 d')) done))

  -- The loop, on fuel; `draws` gives the nonces of each turn, and `acts` what others do in it.
  unfoldable pub migrate_loop :
      Text
      → Text
      → ℕ
      → (ℕ → ℕ → Db → Db)
      → (ℕ → Text → Option Text)
      → Db
      → Option (Result (Unit {0}) × Db)
  unfolding turn
  migrate_loop old_dek new_dek zero acts draws db = none
  migrate_loop old_dek new_dek (suc fuel) acts draws db =
      elim (turn old_dek new_dek (draws fuel) (acts fuel) db) [
        | again db' ↦ migrate_loop old_dek new_dek fuel acts draws db'
        | done db' ↦ some (
          ok tt,
          update_operations (is_migrating_row operation)
              (λ o. record o { status = verifying; failure_code = none }) db',
        )
        | failing e db' ↦ some (err e, db')
      ]

-- `WHERE environment_id = ? AND dek_version = ?` on environment_keys
abbrev pub is_key : Text → ℕ → KeyRow → Bool
is_key environment_id v k = eq_text k.environment_id environment_id && k.dek_version == v

module _ (lib : Primitives) (manager : CryptoManager) where
  -- A missing row is an error of `fetch_one`.
  unfoldable pub load_dek : Text → ℕ → Db → Result Text
  load_dek environment_id v db = do
    k ← ok_or database (find (is_key environment_id v) db.keys)
    wrapped ← ok_or database k.wrapped
    or_crypto
        (unwrap_dek lib manager environment_id v k.kek_version wrapped.ciphertext wrapped.nonce)

  unfoldable pub migrate_dek_batches :
      Operation
      → ℕ
      → (ℕ → ℕ → Db → Db)
      → (ℕ → Text → Option Text)
      → Db
      → Option (Result (Unit {0}) × Db)
  unfolding load_dek migrate_loop
  migrate_dek_batches operation fuel acts draws db =
      elim (load_dek operation.environment_id operation.source_dek_version db) [
        | err e ↦ some (err e, db)
        | ok old_dek ↦ elim (load_dek operation.environment_id operation.target_dek_version db) [
          | err e ↦ some (err e, db)
          | ok new_dek ↦ migrate_loop lib operation old_dek new_dek fuel acts draws db
        ]
      ]

  module _ {Row : Type 0} (table : CipherTable Row) where
    -- Each of the rows opens under the key.
    unfoldable pub verify_rows : Text → ℕ → List Row → Result (Unit {0})
    verify_rows dek v [] = ok tt
    verify_rows dek v (row ∷ rows) = do
      plaintext ← or_crypto (table.open_row dek v row)
      verify_rows dek v rows

  -- The queries of the verification give no row a legacy owner.
  abbrev pub without_legacy : ProposalCipherRow → ProposalCipherRow
  without_legacy row = record row { legacy = none }

  abbrev pub map_rows : List ProposalCipherRow → List ProposalCipherRow
  map_rows [] = []
  map_rows (row ∷ rows) = without_legacy row ∷ map_rows rows

  unfoldable pub verify_dek_ciphertexts : Operation → Db → Result (Unit {0})
  unfolding load_dek verify_rows current_table history_table proposal_table
  verify_dek_ciphertexts operation db =
      let e = operation.environment_id in
      let v = operation.target_dek_version in
      load_dek e v db >>= λ new_dek.
      verify_rows (current_table lib) new_dek v
        (filter (refers (current_table lib) e v) db.variables)
      >> (verify_rows (history_table lib) new_dek v
            (filter (refers (history_table lib) e v) db.variable_versions)
          >> verify_rows (proposal_table lib) new_dek v
              (map_rows (filter (refers (proposal_table lib) e v) db.items)))
