-- ===== src/Rotations/Whole.antt =====
-- `load_or_prepare_dek_operation`, `verify_and_finalize_dek` and `rotate_dek` of
-- src/rotations/mod.rs, and `validate_active_environment_keys` of src/db.rs. What is done before an
-- error stays done, so that a result is an error or a success, with the database.
use configdeck.Auth.Session.{
  AuthenticatedSession, SessionSettings, high_impact, require_full, has_recent_auth,
}
use configdeck.Crypto.Manager.{Primitives, CryptoManager, wrap_dek, unwrap_dek}
use configdeck.Errors.{
  Result, ok, err, forbidden, not_found, conflict, invalid_request, database, crypto, ◌>>=◌, ◌>>◌,
  require, ok_or,
}
use configdeck.Prelude.Space.{trim}
use configdeck.Prelude.{
  ℕ, suc, Bool, true, false, not, ◌&&◌, ◌||◌, List, [], ◌∷◌, ◌++◌, Option, none, some, Text,
  eq_text, ◌==◌, ltb, if◌then◌else◌, byte_len, any, find, update_where, is_empty, count_where,
}
use configdeck.Rotations.Batch.{migrating, completed, Operation, or_crypto}
use configdeck.Rotations.Dek.{
  Db, KeyRow, active, pending, retired, is_active, is_pending, is_open, is_key, migrate_dek_batches,
  count_dek_references, verify_dek_ciphertexts, update_operations,
}
use configdeck.Users.{allows, rotate_keys}
use Prim.Native.Nat.{max}

abbrev max_reason_bytes : ℕ
max_reason_bytes = 1000

unfoldable pub validate_rotation_reason : Text → Result (Unit {0})
unfolding trim
validate_rotation_reason reason =
    require (not (is_empty (trim reason) || ltb max_reason_bytes (byte_len (trim reason))))
      invalid_request

unfoldable pub require_administrator : AuthenticatedSession → Result (Unit {0})
unfolding require_full allows
require_administrator session = do
  require_full session
  require (allows session.user.role rotate_keys) forbidden

unfoldable pub require_recent_administrator :
    SessionSettings → ℕ → AuthenticatedSession → Result (Unit {0})
unfolding require_administrator has_recent_auth
require_recent_administrator settings instant session = do
  require_administrator session
  require (has_recent_auth settings instant session high_impact) forbidden

unfoldable pub authorize_environment : AuthenticatedSession → Text → Db → Result (Unit {0})
authorize_environment session environment_id db =
    require
      (any
        (λ e. eq_text e.id environment_id && eq_text e.organization_id session.user.organization_id)
        db.environments)
      not_found

abbrev pub max_version : Text → List KeyRow → ℕ
max_version environment_id [] = 0
max_version environment_id (k ∷ ks) =
    let rest = max_version environment_id ks in
    if eq_text k.environment_id environment_id then max k.dek_version rest else rest

-- the row that is inserted
abbrev pub new_operation : Text → Text → ℕ → ℕ → ℕ → Operation
new_operation operation_id environment_id source target total = record {
  id = operation_id;
  environment_id = environment_id;
  source_dek_version = source;
  target_dek_version = target;
  status = migrating;
  total_records = total;
  processed_records = 0;
  failure_code = none;
}

-- the two changes of environment_keys
abbrev pub is_retiring : Operation → KeyRow → Bool
is_retiring operation k =
    is_key operation.environment_id operation.source_dek_version k && is_active k.status

abbrev pub is_starting : Operation → KeyRow → Bool
is_starting operation k =
    is_key operation.environment_id operation.target_dek_version k && is_pending k.status

abbrev pub retired_keys : Operation → List KeyRow → List KeyRow
retired_keys operation =
    update_where (is_retiring operation) (λ k. record k { status = retired; wrapped = none })

-- The transaction of `verify_and_finalize_dek`. The status COMMITTING that it writes first is
-- overwritten in it.
unfoldable pub finalize_commit : AuthenticatedSession → Operation → ℕ → Db → Result Db
finalize_commit session operation reason_length db =
    let keys = retired_keys operation db.keys in
    require
      (count_where (is_retiring operation) db.keys == 1
        && count_where (is_starting operation) keys == 1)
      conflict
    >> ok (
        update_operations (λ o. eq_text o.id operation.id)
          (λ o. record o { status = completed; processed_records = operation.total_records })
          (record db {
            keys = update_where (is_starting operation) (λ k. record k { status = active }) keys;
            audit =
                db.audit
                ++ (record {
                  actor_id = session.user.id;
                  environment_id = operation.environment_id;
                  source_dek_version = operation.source_dek_version;
                  target_dek_version = operation.target_dek_version;
                  record_count = operation.total_records;
                  reason_length = reason_length;
                }
                    ∷ []);
          }))

module _ (lib : Primitives) (manager : CryptoManager) where
  -- `fingerprint` is that of the master key; a registry with no active key is an error of
  -- `fetch_one`.
  unfoldable pub ensure_primary_kek_active : Text → Db → Result (Unit {0})
  ensure_primary_kek_active fingerprint db = do
    a ← ok_or database db.active_fingerprint
    require (eq_text a fingerprint) conflict

  -- `new_dek` and `nonce` are what the generator gives for the key, and for its wrapping. An index
  -- allows an environment one pending key. `read` is what is read ahead of the transaction.
  unfoldable pub prepare_dek_operation :
      Text → Text → Option Text → Option Text → Db → Db → Result (Operation × Db)
  unfolding count_dek_references wrap_dek unwrap_dek
  prepare_dek_operation environment_id operation_id new_dek nonce read db = do
    require (not (any (λ o. is_open o.status) read.operations)) conflict
    key ←
        ok_or database
          (find (λ k. eq_text k.environment_id environment_id && is_active k.status) read.keys)
    wrapped ← ok_or database key.wrapped
    source_dek ← or_crypto (
        unwrap_dek lib manager environment_id key.dek_version key.kek_version wrapped.ciphertext
          wrapped.nonce)
    dek ← ok_or crypto new_dek
    blob ← or_crypto (
        wrap_dek lib manager nonce environment_id (suc (max_version environment_id read.keys))
          key.kek_version dek)
    require
        (not (any (λ k. eq_text k.environment_id environment_id && is_pending k.status) db.keys))
        database
    let operation =
        new_operation operation_id environment_id key.dek_version
          (suc (max_version environment_id read.keys))
          (count_dek_references lib environment_id key.dek_version read)
    ok (
      operation,
      record db {
        keys =
            db.keys
            ++ (record {
              environment_id = environment_id;
              dek_version = suc (max_version environment_id read.keys);
              kek_version = key.kek_version;
              wrapped = some blob;
              status = pending;
            }
                ∷ []);
        operations = db.operations ++ (operation ∷ []);
      },
    )

  unfoldable pub load_or_prepare_dek_operation :
      Text → Text → Option Text → Option Text → Db → Db → Result (Operation × Db)
  unfolding prepare_dek_operation
  load_or_prepare_dek_operation environment_id operation_id new_dek nonce read db =
      elim (find (λ o. eq_text o.environment_id environment_id && is_open o.status)
        read.operations) [
          | some operation ↦ ok (operation, db)
          | none ↦ prepare_dek_operation environment_id operation_id new_dek nonce read db
        ]

  -- `validate_active_environment_keys`
  unfoldable pub validate_active_keys : List KeyRow → Result (Unit {0})
  unfolding unwrap_dek
  validate_active_keys [] = ok tt
  validate_active_keys (k ∷ ks) =
      let rest = validate_active_keys ks in
      if is_active k.status
      then ok_or database k.wrapped >>= (λ wrapped.
        or_crypto (
          unwrap_dek lib manager k.environment_id k.dek_version k.kek_version wrapped.ciphertext
            wrapped.nonce)
        >>= λ dek. rest)
      else rest

  -- Everything that is tested before the transaction.
  unfoldable pub verify_dek : Operation → Db → Result (Unit {0})
  unfolding count_dek_references verify_dek_ciphertexts
  verify_dek operation db = do
    require
        (count_dek_references lib operation.environment_id operation.source_dek_version db == 0
          && (count_dek_references lib operation.environment_id operation.target_dek_version db
              == operation.total_records))
        conflict
    verify_dek_ciphertexts lib manager operation db

  -- `read` is the database as it is verified, and `db` as the transaction that follows finds it. The
  -- last component is what becomes of the flag that the server is ready.
  unfoldable pub verify_and_finalize_dek :
      AuthenticatedSession → Operation → ℕ → Db → Db → Result (Unit {0}) × Db × Bool
  unfolding verify_dek finalize_commit validate_active_keys
  verify_and_finalize_dek session operation reason_length read db =
      elim (verify_dek operation read >> finalize_commit session operation reason_length db) [
        | err e ↦ (err e, db, true)
        | ok db' ↦ elim (validate_active_keys db'.keys) [
          | ok u ↦ (ok tt, db', true)
          | err e ↦ (err crypto, db', false)
        ]
      ]

  -- `before`, `acts` and `between` are what other sessions commit between what is read and the
  -- transaction that goes by it: that of the operation, of each batch, and the last one. The fuel bounds the turns of the
  -- loop. `none` is a loop that has not ended on it.
  unfoldable pub rotate_dek :
      SessionSettings
      → ℕ
      → AuthenticatedSession
      → Text
      → Text
      → Text
      → Text
      → Option Text
      → Option Text
      → ℕ
      → (Db → Db)
      → (ℕ → ℕ → Db → Db)
      → (Db → Db)
      → (ℕ → Text → Option Text)
      → Db
      → Option (Result (Unit {0}) × Db × Bool)
  unfolding require_recent_administrator validate_rotation_reason authorize_environment
      ensure_primary_kek_active load_or_prepare_dek_operation migrate_dek_batches
      verify_and_finalize_dek trim
  rotate_dek settings instant session fingerprint environment_id reason operation_id new_dek nonce
        fuel before acts between draws db =
      elim (require_recent_administrator settings instant session
        >> (validate_rotation_reason reason
            >> (authorize_environment session environment_id db
                >> (ensure_primary_kek_active fingerprint db
                    >> load_or_prepare_dek_operation environment_id operation_id new_dek nonce db
                        (before db))))) [
                          | err e ↦ some (err e, before db, true)
                          | ok (operation, prepared) ↦
                              elim (migrate_dek_batches lib manager operation fuel acts draws
                                prepared) [
                                  | none ↦ none
                                  | some (err e, db') ↦ some (err e, db', true)
                                  | some (ok u, db') ↦ some (
                                      verify_and_finalize_dek session operation
                                        (byte_len (trim reason)) db' (between db'))
                                ]
                        ]
