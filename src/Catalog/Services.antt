-- ===== src/Catalog/Services.antt =====
-- `create`, `create_with_default_environments`, `update` and `set_archived` of src/services/mod.rs.
use configdeck.Auth.Session.{AuthenticatedSession}
use configdeck.Catalog.Environments.{CatalogInput, new_environment, first_key}
use configdeck.Catalog.{
  ServiceRow, Db, require_manage_metadata, validate_name, insert_audit, is_service, service_taken,
  environment_taken,
}
use configdeck.Crypto.Manager.{Primitives, CryptoManager, wrap_dek}
use configdeck.Errors.{
  Result, ok, ◌>>=◌, ◌>>◌, require, ok_or, not_found, conflict, database, crypto,
}
use configdeck.Prelude.{
  ℕ, Bool, not, ◌&&◌, List, [], ◌∷◌, ◌++◌, Option, none, some, Text, codes, eq_text, ◌==◌,
  if◌then◌else◌, any, update_where, count_where,
}
use configdeck.Rotations.Batch.{or_crypto}
use configdeck.Variables.Validate.{validate_description}

abbrev pub new_service : AuthenticatedSession → Text → Text → Text → Option Text → Text → ServiceRow
new_service session service_id name normalized description now = record {
  id = service_id;
  organization_id = session.user.organization_id;
  name = name;
  name_normalized = normalized;
  description = description;
  archived_at = none;
  created_at = now;
  updated_at = now;
  created_by = session.user.id;
  updated_by = session.user.id;
}

-- What is drawn for an environment: its identifier, its key and the nonce of the wrapping.
pub record Draw : Type 0 where
  pub environment_id : Text
  pub dek : Option Text
  pub nonce : Option Text

-- The default environments with what is drawn for each.
abbrev pub default_environments : Draw → Draw → Draw → List (Text × Draw)
default_environments first second third =
    (codes "Development", first) ∷ (codes "Staging", second) ∷ (codes "Production", third) ∷ []

unfoldable pub insert_service :
    AuthenticatedSession → Text → Text × Text → Option Text → Text → Db → Result Db
unfolding insert_audit
insert_service session service_id name description now db = do
  let new = new_service session service_id name.0 name.1 description now
  require (not (service_taken new db.services)) conflict
  ok (
      insert_audit session service_id none (codes "CREATE_SERVICE") now
        (record db { services = db.services ++ (new ∷ []) }))

unfoldable pub create :
    (Text → Text) → AuthenticatedSession → CatalogInput → Text → Text → Db → Result Db
unfolding require_manage_metadata insert_service validate_name validate_description
create to_lowercase session input service_id now db = do
  require_manage_metadata session
  name ← validate_name to_lowercase input.name
  description ← validate_description input.description
  insert_service session service_id name description now db

module _ (lib : Primitives) (manager : CryptoManager) (to_lowercase : Text → Text) where
  -- The loop over the default environments. A violated uniqueness is no conflict here.
  unfoldable pub insert_environments :
      AuthenticatedSession → Text → ℕ → Text → List (Text × Draw) → Db → Result Db
  unfolding wrap_dek insert_audit
  insert_environments session service_id kek_version now [] db = ok db
  insert_environments session service_id kek_version now ((name, draw) ∷ rest) db = do
    dek ← ok_or crypto draw.dek
    wrapped ← or_crypto (wrap_dek lib manager draw.nonce draw.environment_id 1 kek_version dek)
    let new =
        new_environment session draw.environment_id service_id name (to_lowercase name) none now
    require (not (environment_taken new db.environments)) database
    insert_environments session service_id kek_version now rest (
        insert_audit session service_id (some draw.environment_id) (codes "CREATE_ENVIRONMENT") now
          (record db {
            environments = db.environments ++ (new ∷ []);
            keys = db.keys ++ (first_key draw.environment_id kek_version wrapped ∷ []);
          }))

  unfoldable pub create_with_default_environments :
      AuthenticatedSession → CatalogInput → Text → Draw → Draw → Draw → Text → Db → Result Db
  unfolding require_manage_metadata insert_service insert_environments validate_name
      validate_description
  create_with_default_environments session input service_id first second third now db = do
    require_manage_metadata session
    name ← validate_name to_lowercase input.name
    description ← validate_description input.description
    kek_version ← ok_or database db.kek_version
    with_service ← insert_service session service_id name description now db
    insert_environments session service_id kek_version now (default_environments first second third)
        with_service

-- Another service of the organization has the name.
abbrev pub name_taken : Text → Text → Text → List ServiceRow → Bool
name_taken service_id organization_id normalized rows =
    any
      (λ s.
        not (eq_text s.id service_id)
        && eq_text s.organization_id organization_id
        && eq_text s.name_normalized normalized)
      rows

-- `UPDATE services … WHERE id = ? AND organization_id = ?`, which is to reach one row
unfoldable pub update_service :
    AuthenticatedSession → Text → (ServiceRow → ServiceRow) → Text → Text → Db → Result Db
unfolding insert_audit
update_service session service_id set action now db = do
  require (count_where (is_service service_id session.user.organization_id) db.services == 1)
      not_found
  ok (
      insert_audit session service_id none action now (record db {
        services =
            update_where (is_service service_id session.user.organization_id) set db.services;
      }))

-- The name is a conflict only where there is a service to change.
unfoldable pub update :
    (Text → Text) → AuthenticatedSession → Text → CatalogInput → Text → Db → Result Db
unfolding require_manage_metadata validate_name validate_description update_service
update to_lowercase session service_id input now db = do
  require_manage_metadata session
  name ← validate_name to_lowercase input.name
  description ← validate_description input.description
  require
      (not (
        any (is_service service_id session.user.organization_id) db.services
        && name_taken service_id session.user.organization_id name.1 db.services))
      conflict
  update_service session service_id
      (λ s. record s {
        name = name.0;
        name_normalized = name.1;
        description = description;
        updated_at = now;
        updated_by = session.user.id;
      })
      (codes "UPDATE_SERVICE") now db

unfoldable pub set_archived : AuthenticatedSession → Text → Bool → Text → Db → Result Db
unfolding require_manage_metadata update_service
set_archived session service_id archived now db = do
  require_manage_metadata session
  update_service session service_id
      (λ s. record s {
        archived_at = if archived then some now else none;
        updated_at = now;
        updated_by = session.user.id;
      })
      (if archived then codes "ARCHIVE_SERVICE" else codes "RESTORE_SERVICE") now db
