-- ===== src/Tests/Rotations.antt =====
-- An environment with one sealed variable, whose data key is replaced.

use configdeck.Crypto.Manager.{
  CryptoManager, EncryptedBlob, encrypt, decrypt, encrypt_current_value, decrypt_current_value,
  unwrap_dek, wrap_dek,
}
use configdeck.Crypto.Aad.{wrapped_dek_aad, current_value_aad, field}
use configdeck.Crypto.Bytes.{be_bytes}
use configdeck.Auth.Session.{minutes, require_full, has_recent_auth}
use configdeck.Errors.{Result, ok, err, conflict}
use configdeck.Prelude.Space.{trim, is_whitespace}
use configdeck.Rotations.Rely.{IsKeyed, secrets_under, balance}
use configdeck.Rotations.Runs.{another_batch, another_batch-Allows}
use configdeck.Users.{allows}
use configdeck.Prelude.{
  ℕ, ◌≡◌, ◌≤◌, true, false, refl, arith, Bool, [], ◌∷◌, Option, none, some, Text, codes, eq_text,
}
use configdeck.Rotations.Batch.{
  Operation, migrating, verifying, migrate_batch, batch_rows, sort_by_id, insert_by_id, prepare_row,
  prepare_rows, update_cipher_row, update_cipher_rows, checkpoint,
}
use configdeck.Rotations.Completes.{migrate_dek_batches-completes}
use configdeck.Rotations.Dek.{
  Db, active, pending, load_dek, migrate_dek_batches, migrate_loop, turn, migrate_current_batch,
  migrate_history_batch, migrate_proposal_batch, count_dek_references, idle, record_rotation_issue,
  verify_dek_ciphertexts, verify_rows,
}
use configdeck.Rotations.Ends.{rotate_dek-ends}
use configdeck.Rotations.Finalized.{verify_and_finalize_dek-refines}
use configdeck.Rotations.Kept.{AreNonces}
use configdeck.Rotations.Refines.{key_of, migrate_dek_batches-refines}
use configdeck.Rotations.Whole.{
  rotate_dek, verify_and_finalize_dek, require_recent_administrator, require_administrator,
  validate_rotation_reason, authorize_environment, ensure_primary_kek_active,
  load_or_prepare_dek_operation, prepare_dek_operation, verify_dek, finalize_commit,
  validate_active_keys,
}
use configdeck.Rotations.{CurrentCipherRow, current_table, history_table, proposal_table}
use configdeck.Tests.Accounts.{an_administrator}
use configdeck.Tests.Ciphers.{clear, key32, nonce12}
use configdeck.Tests.Sessions.{settings}

abbrev manager : CryptoManager
manager = record { master_key = key32 9; previous_master_key = none }

abbrev a_row : ℕ → CurrentCipherRow
a_row v = record {
  id = codes "x";
  service_id = codes "s";
  environment_id = codes "e";
  version = 1;
  dek_version = v;
  ciphertext = codes "secret";
  nonce = nonce12;
}

abbrev an_operation : Operation
an_operation = record {
  id = codes "op";
  environment_id = codes "e";
  source_dek_version = 1;
  target_dek_version = 2;
  status = migrating;
  total_records = 1;
  processed_records = 0;
  failure_code = none;
}

abbrev wrapped : ℕ → Option EncryptedBlob
wrapped n = some (record { ciphertext = key32 n; nonce = nonce12 })

abbrev a_db : Db
a_db = record {
  environments = record { id = codes "e"; organization_id = codes "o" } ∷ [];
  variables = a_row 1 ∷ [];
  variable_versions = [];
  items = [];
  keys =
      record {
        environment_id = codes "e";
        dek_version = 1;
        kek_version = 1;
        wrapped = wrapped 1;
        status = active;
      }
      ∷ record {
        environment_id = codes "e";
        dek_version = 2;
        kek_version = 1;
        wrapped = wrapped 2;
        status = pending;
      }
      ∷ [];
  active_fingerprint = some (codes "f");
  operations = an_operation ∷ [];
  audit = [];
}

abbrev migrated : Db
migrated = record a_db {
  variables = a_row 2 ∷ [];
  operations = record an_operation { status = verifying; processed_records = 1 } ∷ [];
}

abbrev draws : ℕ → Text → Option Text
draws n id = some nonce12

migrating_all :
    migrate_dek_batches clear manager an_operation 3 idle draws a_db ≡ some (ok tt, migrated)
unfolding migrate_dek_batches migrate_loop turn migrate_current_batch migrate_history_batch
    migrate_proposal_batch migrate_batch batch_rows sort_by_id insert_by_id prepare_row prepare_rows
    update_cipher_row update_cipher_rows checkpoint load_dek unwrap_dek encrypt decrypt
    encrypt_current_value decrypt_current_value wrapped_dek_aad current_value_aad field be_bytes
    current_table history_table proposal_table eq_text
migrating_all = refl

drawn : (n : ℕ) → AreNonces (draws n)
drawn n id nonce h = ground arith

keyed : IsKeyed clear a_db
keyed = record { variables = (tt, tt); variable_versions = tt; items = tt }

-- In every turn another run of the rotation is ahead with a batch.
abbrev ahead : ℕ → ℕ → Db → Db
ahead n i db =
    another_batch clear an_operation (key_of clear manager a_db) (key32 1) (key32 2) (draws n) db

abbrev contested : Db
contested = record a_db {
  variables = a_row 2 ∷ [];
  operations =
      record an_operation {
        processed_records = 1;
        failure_code = some (codes "DEK_CURRENT_MIGRATION");
      }
      ∷ [];
}

-- The record is no longer under the old key, so that the batch that was read ahead conflicts.
migrating_late :
    migrate_dek_batches clear manager an_operation 3 ahead draws a_db
    ≡ some (err conflict, contested)
unfolding migrate_dek_batches migrate_loop turn migrate_current_batch migrate_history_batch
    migrate_proposal_batch migrate_batch batch_rows sort_by_id insert_by_id prepare_row prepare_rows
    update_cipher_row update_cipher_rows checkpoint load_dek unwrap_dek encrypt decrypt
    encrypt_current_value decrypt_current_value wrapped_dek_aad current_value_aad field be_bytes
    current_table history_table proposal_table eq_text record_rotation_issue
migrating_late = refl

loaded_old : key_of clear manager a_db (codes "e") 1 ≡ key32 1
unfolding load_dek unwrap_dek decrypt wrapped_dek_aad field be_bytes eq_text
loaded_old = refl

loaded_new : key_of clear manager a_db (codes "e") 2 ≡ key32 2
unfolding load_dek unwrap_dek decrypt wrapped_dek_aad field be_bytes eq_text
loaded_new = refl

migrate_dek_batches-refines_example :
    (secrets_under clear (key_of clear manager a_db) contested
      ≡ secrets_under clear (key_of clear manager a_db) a_db)
    × (contested.keys ≡ a_db.keys)
    × (balance clear an_operation contested ≡ balance clear an_operation a_db)
    × IsKeyed clear contested
migrate_dek_batches-refines_example =
    migrate_dek_batches-refines clear manager an_operation 3 ahead draws a_db
      {r = (err conflict, contested)} (λ h. omega (arith, h)) drawn
      (λ n i db.
        another_batch-Allows clear an_operation (key_of clear manager a_db) (key32 1) (key32 2)
          (draws n) db loaded_old loaded_new (λ h. omega (arith, h)) (drawn n))
      keyed migrating_late

migrate_dek_batches-completes_example :
    (r : Result (Unit {0}) × Db) × (migrate_dek_batches clear manager an_operation 3 idle draws a_db
      ≡ some r)
    × (r.0 ≡ ok tt → count_dek_references clear (codes "e") 1 r.1 ≡ 0)
migrate_dek_batches-completes_example =
    migrate_dek_batches-completes clear manager an_operation 3 idle draws a_db
      (λ n i db. omega arith)
      (λ n i db. record {
        variables = omega arith;
        variable_versions = omega arith;
        items = omega arith;
      })
      (omega arith)

-- The fingerprint of the active master key is gone before the transaction.
abbrev found : Db
found = record migrated { active_fingerprint = none }

still :
    count_dek_references clear (codes "e") 1 found
    ≤ count_dek_references clear (codes "e") 1 migrated
unfolding count_dek_references
still = omega arith

verify_and_finalize_dek-refines_example :
    let db' =
      (verify_and_finalize_dek clear manager an_administrator an_operation 4 migrated found).1 in
    secrets_under clear (key_of clear manager db') db'
    ≡ secrets_under clear (key_of clear manager found) found
verify_and_finalize_dek-refines_example =
    verify_and_finalize_dek-refines clear manager an_administrator an_operation 4 migrated found
      still

-- No rotation is unfinished, and no key is pending.
abbrev fresh_db : Db
fresh_db = record a_db {
  keys =
      record {
        environment_id = codes "e";
        dek_version = 1;
        kek_version = 1;
        wrapped = wrapped 1;
        status = active;
      }
      ∷ [];
  operations = [];
}

abbrev rotating : ℕ → Option (Result (Unit {0}) × Db × Bool)
rotating fuel =
    rotate_dek clear manager settings (minutes 1001) an_administrator (codes "f") (codes "e")
      (codes "why") (codes "op2") (some (key32 2)) (some nonce12) fuel (λ db. db) idle (λ db. db)
      draws fresh_db

-- no answer, or whether it is a success
abbrev outcome : Option (Result (Unit {0}) × Db × Bool) → Option Bool
outcome none = none
outcome (some (ok u, db, ready)) = some ready
outcome (some (err e, db, ready)) = some false

rotating_whole : (outcome (rotating 1) ≡ none) × (outcome (rotating 2) ≡ some true)
unfolding rotate_dek require_recent_administrator require_administrator require_full has_recent_auth
    allows validate_rotation_reason trim authorize_environment ensure_primary_kek_active
    load_or_prepare_dek_operation prepare_dek_operation wrap_dek migrate_dek_batches migrate_loop
    turn migrate_current_batch migrate_history_batch migrate_proposal_batch migrate_batch batch_rows
    sort_by_id insert_by_id prepare_row prepare_rows update_cipher_row update_cipher_rows checkpoint
    load_dek unwrap_dek encrypt decrypt encrypt_current_value decrypt_current_value wrapped_dek_aad
    current_value_aad field be_bytes current_table history_table proposal_table eq_text
    verify_and_finalize_dek verify_dek count_dek_references verify_dek_ciphertexts verify_rows
    finalize_commit validate_active_keys is_whitespace
rotating_whole = (refl, refl)

rotate_dek-ends_example :
    (r : Result (Unit {0}) × Db × Bool) × (rotate_dek clear manager settings
        (minutes 1001)
        an_administrator
        (codes "f")
        (codes "e")
        (codes "why")
        (codes "op2")
        (some (key32 2))
        (some nonce12)
        2
        (λ db. db)
        idle
        (λ db. db)
        draws
        fresh_db
      ≡ some r)
rotate_dek-ends_example =
    rotate_dek-ends clear manager settings (minutes 1001) an_administrator (codes "f") (codes "e")
      (codes "why") (codes "op2") (some (key32 2)) (some nonce12) 2 (λ db. db) idle (λ db. db) draws
      fresh_db (λ db. omega arith) (λ n i db. omega arith) (omega arith)
