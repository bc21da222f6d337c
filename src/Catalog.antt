-- ===== src/Catalog.antt =====
-- The tables of src/services/mod.rs and src/environments/mod.rs: services of an organization, their
-- environments, the data keys of these, and the requests that keep an environment open.
pub mod Services
pub mod Environments
pub mod Stays
pub mod Archived
pub mod Histories
pub mod Keys
use configdeck.Auth.Session.{AuthenticatedSession, require_full}
use configdeck.Crypto.Manager.{EncryptedBlob}
use configdeck.Errors.{Result, ok, err, ◌>>=◌, ◌>>◌, require, forbidden, invalid_request}
use configdeck.Prelude.Space.{trim, is_control}
use configdeck.Prelude.{
  ℕ, ◌+◌, Bool, true, false, not, ◌&&◌, ◌||◌, List, [], ◌∷◌, ◌++◌, Option, none, some, Text, codes,
  eq_text, ltb, if◌then◌else◌, length, any, is_empty,
}
use configdeck.Requests.Rows.{Status}
use configdeck.Rotations.Dek.{KeyRow}
use configdeck.Users.{allows, manage_metadata}

-- A row of services.
pub record ServiceRow : Type 0 where
  pub id : Text
  pub organization_id : Text
  pub name : Text
  pub name_normalized : Text
  pub description : Option Text
  pub archived_at : Option Text
  pub created_at : Text
  pub updated_at : Text
  pub created_by : Text
  pub updated_by : Text

-- A row of environments.
pub record EnvironmentRow : Type 0 where
  pub id : Text
  pub service_id : Text
  pub name : Text
  pub name_normalized : Text
  pub description : Option Text
  pub archived_at : Option Text
  pub created_at : Text
  pub updated_at : Text
  pub created_by : Text
  pub updated_by : Text

-- The columns of change_requests that are read here.
pub record OpenRequest : Type 0 where
  pub environment_id : Text
  pub status : Status

pub record CatalogAudit : Type 0 where
  pub occurred_at : Text
  pub actor_user_id : Text
  pub action : Text
  pub service_id : Text
  pub environment_id : Option Text

-- `kek_version` is that of the active master key.
pub record Db : Type 0 where
  pub services : List ServiceRow
  pub environments : List EnvironmentRow
  pub keys : List KeyRow
  pub kek_version : Option ℕ
  pub requests : List OpenRequest
  pub audit : List CatalogAudit

unfoldable pub require_manage_metadata : AuthenticatedSession → Result (Unit {0})
unfolding require_full
require_manage_metadata session = do
  require_full session
  require (allows session.user.role manage_metadata) forbidden

abbrev pub max_name_chars : ℕ
max_name_chars = 100

-- The name and its form without case; the lower case of Unicode is a parameter.
unfoldable pub validate_name : (Text → Text) → Text → Result (Text × Text)
unfolding trim
validate_name to_lowercase value =
    let name = trim value in
    if is_empty name || ltb max_name_chars (length name) || any is_control name
    then err invalid_request
    else ok (name, to_lowercase name)

-- `audit_service` and `audit_environment`
unfoldable pub insert_audit : AuthenticatedSession → Text → Option Text → Text → Text → Db → Db
insert_audit session service_id environment_id action now db = record db {
  audit =
      db.audit
      ++ (record {
        occurred_at = now;
        actor_user_id = session.user.id;
        action = action;
        service_id = service_id;
        environment_id = environment_id;
      }
          ∷ []);
}

-- `id = ? AND organization_id = ?` on services
abbrev pub is_service : Text → Text → ServiceRow → Bool
is_service service_id organization_id s =
    eq_text s.id service_id && eq_text s.organization_id organization_id

-- The row violates a uniqueness of the table environments.
abbrev pub environment_taken : EnvironmentRow → List EnvironmentRow → Bool
environment_taken new rows =
    any
      (λ e.
        eq_text e.id new.id
        || eq_text e.service_id new.service_id && eq_text e.name_normalized new.name_normalized)
      rows

-- The row violates a uniqueness of the table services.
abbrev pub service_taken : ServiceRow → List ServiceRow → Bool
service_taken new rows =
    any
      (λ s.
        eq_text s.id new.id
        || eq_text s.organization_id new.organization_id
          && eq_text s.name_normalized new.name_normalized)
      rows
