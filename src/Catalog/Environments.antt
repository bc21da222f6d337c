-- ===== src/Catalog/Environments.antt =====
-- `create`, `update`, `set_archived`, `active_dek` and `dek_by_version` of src/environments/mod.rs. Fresh identifiers,
-- keys and nonces are arguments, and `now` is the time that is written. The panic of a field of
-- 2^32 bytes stands here as the error of the cipher.
use configdeck.Auth.Session.{AuthenticatedSession}
use configdeck.Catalog.{
  EnvironmentRow, Db, require_manage_metadata, validate_name, insert_audit, is_service,
  environment_taken,
}
use configdeck.Crypto.Manager.{Primitives, EncryptedBlob, CryptoManager, wrap_dek, unwrap_dek}
use configdeck.Errors.{
  Result, ok, ◌>>=◌, ◌>>◌, require, ok_or, not_found, conflict, database, crypto,
  last_active_environment, environment_has_open_requests,
}
use configdeck.Prelude.{
  ℕ, Bool, not, ◌&&◌, List, [], ◌∷◌, ◌++◌, Option, none, some, Text, codes, eq_text, ◌==◌, leb,
  if◌then◌else◌, any, find, update_where, count_where, is_some,
}
use configdeck.Requests.Rows.{is_open}
use configdeck.Rotations.Batch.{or_crypto}
use configdeck.Rotations.Dek.{KeyRow, active, is_active}
use configdeck.Variables.Validate.{validate_description}

-- `EnvironmentInput`, and `ServiceInput`
pub record CatalogInput : Type 0 where
  pub name : Text
  pub description : Option Text

-- The first key of an environment.
abbrev pub first_key : Text → ℕ → EncryptedBlob → KeyRow
first_key environment_id kek_version wrapped = record {
  environment_id = environment_id;
  dek_version = 1;
  kek_version = kek_version;
  wrapped = some wrapped;
  status = active;
}

abbrev pub new_environment :
    AuthenticatedSession → Text → Text → Text → Text → Option Text → Text → EnvironmentRow
new_environment session environment_id service_id name normalized description now = record {
  id = environment_id;
  service_id = service_id;
  name = name;
  name_normalized = normalized;
  description = description;
  archived_at = none;
  created_at = now;
  updated_at = now;
  created_by = session.user.id;
  updated_by = session.user.id;
}

-- Of the environment with the service that it belongs to, in the session's organization.
unfoldable pub service_of : AuthenticatedSession → Text → Db → Result Text
service_of session environment_id db = do
  e ← ok_or not_found (
      find
        (λ e.
          eq_text e.id environment_id
          && any (is_service e.service_id session.user.organization_id) db.services)
        db.environments)
  ok e.service_id

abbrev pub is_active_in : Text → EnvironmentRow → Bool
is_active_in service_id e = eq_text e.service_id service_id && not (is_some e.archived_at)

abbrev pub has_id : Text → EnvironmentRow → Bool
has_id environment_id e = eq_text e.id environment_id

module _ (lib : Primitives) (manager : CryptoManager) (to_lowercase : Text → Text) where
  unfoldable pub create :
      AuthenticatedSession
      → Text
      → CatalogInput
      → Text
      → Option Text
      → Option Text
      → Text
      → Db
      → Result Db
  unfolding require_manage_metadata validate_name validate_description wrap_dek insert_audit
  create session service_id input environment_id new_dek nonce now db = do
    require_manage_metadata session
    name ← validate_name to_lowercase input.name
    description ← validate_description input.description
    service ←
        ok_or not_found (find (is_service service_id session.user.organization_id) db.services)
    require (not (is_some service.archived_at)) conflict
    kek_version ← ok_or database db.kek_version
    dek ← ok_or crypto new_dek
    wrapped ← or_crypto (wrap_dek lib manager nonce environment_id 1 kek_version dek)
    let new = new_environment session environment_id service_id name.0 name.1 description now
    require (not (environment_taken new db.environments)) conflict
    ok (
        insert_audit session service_id (some environment_id) (codes "CREATE_ENVIRONMENT") now
          (record db {
            environments = db.environments ++ (new ∷ []);
            keys = db.keys ++ (first_key environment_id kek_version wrapped ∷ []);
          }))

-- Another environment of the service has the name.
abbrev pub name_taken : Text → Text → Text → List EnvironmentRow → Bool
name_taken environment_id service_id normalized rows =
    any
      (λ e.
        not (eq_text e.id environment_id)
        && eq_text e.service_id service_id
        && eq_text e.name_normalized normalized)
      rows

abbrev pub renamed_environment :
    AuthenticatedSession → Text → Text → Option Text → Text → EnvironmentRow → EnvironmentRow
renamed_environment session name normalized description now e = record e {
  name = name;
  name_normalized = normalized;
  description = description;
  updated_at = now;
  updated_by = session.user.id;
}

unfoldable pub update :
    (Text → Text) → AuthenticatedSession → Text → CatalogInput → Text → Db → Result Db
unfolding require_manage_metadata validate_name validate_description service_of insert_audit
update to_lowercase session environment_id input now db = do
  require_manage_metadata session
  name ← validate_name to_lowercase input.name
  description ← validate_description input.description
  service_id ← service_of session environment_id db
  require (not (name_taken environment_id service_id name.1 db.environments)) conflict
  ok (
      insert_audit session service_id (some environment_id) (codes "UPDATE_ENVIRONMENT") now
        (record db {
          environments =
              update_where (has_id environment_id)
                (renamed_environment session name.0 name.1 description now) db.environments;
        }))

-- What archiving an environment that is not archived asks for.
unfoldable pub may_archive : Text → Text → Db → Result (Unit {0})
may_archive service_id environment_id db = do
  require (not (leb (count_where (is_active_in service_id) db.environments) 1))
      last_active_environment
  require (not (any (λ r. eq_text r.environment_id environment_id && is_open r.status) db.requests))
      environment_has_open_requests

abbrev pub archived_environment :
    AuthenticatedSession → Bool → Text → EnvironmentRow → EnvironmentRow
archived_environment session archived now e = record e {
  archived_at = if archived then some now else none;
  updated_at = now;
  updated_by = session.user.id;
}

unfoldable pub set_archived : AuthenticatedSession → Text → Bool → Text → Db → Result Db
unfolding require_manage_metadata service_of may_archive insert_audit
set_archived session environment_id archived now db = do
  require_manage_metadata session
  service_id ← service_of session environment_id db
  e ← ok_or database (find (has_id environment_id) db.environments)
  if archived && not (is_some e.archived_at)
      then may_archive service_id environment_id db
      else ok tt
  ok (
      insert_audit session service_id (some environment_id)
        (if archived then codes "ARCHIVE_ENVIRONMENT" else codes "RESTORE_ENVIRONMENT") now
        (record db {
          environments =
              update_where (has_id environment_id) (archived_environment session archived now)
                db.environments;
        }))

unfoldable pub active_dek :
    (lib : Primitives) → CryptoManager → Text → List KeyRow → Result (ℕ × Text)
unfolding unwrap_dek
active_dek lib manager environment_id keys = do
  k ← ok_or crypto (find (λ k. eq_text k.environment_id environment_id && is_active k.status) keys)
  wrapped ← ok_or crypto k.wrapped
  dek ← or_crypto (
      unwrap_dek lib manager environment_id k.dek_version k.kek_version wrapped.ciphertext
        wrapped.nonce)
  ok (k.dek_version, dek)

unfoldable pub dek_by_version :
    (lib : Primitives) → CryptoManager → Text → ℕ → List KeyRow → Result Text
unfolding unwrap_dek
dek_by_version lib manager environment_id dek_version keys = do
  k ← ok_or crypto (
      find
        (λ k.
          eq_text k.environment_id environment_id
          && k.dek_version == dek_version
          && is_some k.wrapped)
        keys)
  wrapped ← ok_or crypto k.wrapped
  or_crypto (
      unwrap_dek lib manager environment_id dek_version k.kek_version wrapped.ciphertext
        wrapped.nonce)
