-- ===== src/Requests/Rows.antt =====
-- The rows that src/requests/mod.rs reads and writes, and the database as far as it is concerned.
-- The columns status, action and lifecycle_status hold one of a few texts each, by the CHECKs of
-- migrations/0001_initial.sql, and are data types here. Revisions and versions are at least 1.
use configdeck.Prelude.Tables.{Table}
use configdeck.Prelude.{
  ℕ, ◌≡◌, refl, Bool, true, false, not, ◌&&◌, List, Option, Text, any, filter, eq_text, is_some,
}
use configdeck.Users.{Grant}

pub data Status : Type 0 where
  requested needs_input ready_to_apply applied rejected : Status

pub data Action : Type 0 where
  add update delete : Action

pub data Lifecycle : Type 0 where
  active deleted : Lifecycle

abbrev pub eq_status : Status → Status → Bool
eq_status requested requested = true
eq_status needs_input needs_input = true
eq_status ready_to_apply ready_to_apply = true
eq_status applied applied = true
eq_status rejected rejected = true
eq_status _ _ = false

pub eq_status_refl : (s : Status) → eq_status s s ≡ true
eq_status_refl requested = refl
eq_status_refl _ = refl

abbrev pub is_ready : Status → Bool
is_ready ready_to_apply = true
is_ready _ = false

-- `matches!(status, "REQUESTED" | "NEEDS_INPUT")`
abbrev pub is_pending : Status → Bool
is_pending requested = true
is_pending needs_input = true
is_pending _ = false

-- `matches!(status, "REQUESTED" | "NEEDS_INPUT" | "READY_TO_APPLY")`
abbrev pub is_open : Status → Bool
is_open applied = false
is_open rejected = false
is_open _ = true

-- `matches!(action, "ADD" | "UPDATE")`
abbrev pub is_write : Action → Bool
is_write delete = false
is_write _ = true

-- A row of change_requests; the columns that no operation of the workflow reads are left out.
pub record RequestRow : Type 0 where
  pub id : Text
  pub service_id : Text
  pub environment_id : Text
  pub status : Status
  pub approved_by : Option Text
  pub approved_at : Option Text
  pub rejected_by : Option Text
  pub rejected_at : Option Text
  pub rejection_reason : Option Text
  pub applied_by : Option Text
  pub applied_at : Option Text
  pub preview_fingerprint : Option Text
  pub revision : ℕ

-- `WorkflowRequestRow`: a request with the organization of its service.
pub record WorkflowRequestRow : Type 0 where
  pub id : Text
  pub organization_id : Text
  pub service_id : Text
  pub environment_id : Text
  pub status : Status
  pub revision : ℕ
  pub approved_at : Option Text
  pub preview_fingerprint : Option Text

pub record ItemRow : Type 0 where
  pub id : Text
  pub change_request_id : Text
  pub variable_id : Option Text
  pub action : Action
  pub key : Text
  pub base_variable_version : Option ℕ
  pub encrypted_proposed_value : Option Text
  pub proposed_value_nonce : Option Text
  pub proposed_dek_version : Option ℕ
  pub proposed_visibility : Text
  pub proposed_value_type : Text
  pub proposed_description : Option Text
  pub proposed_group_name : Option Text
  pub proposed_display_order : ℕ
  pub value_source : Option Text
  pub value_fulfilled_at : Option Text
  pub item_revision : ℕ

-- A row of variables.
pub record CurrentRow : Type 0 where
  pub id : Text
  pub key : Text
  pub encrypted_value : Text
  pub value_nonce : Text
  pub dek_version : ℕ
  pub visibility : Text
  pub value_type : Text
  pub description : Option Text
  pub group_name : Option Text
  pub display_order : ℕ
  pub version : ℕ
  pub lifecycle_status : Lifecycle

-- A row of variable_versions.
pub record VersionRow : Type 0 where
  pub variable_id : Text
  pub version : ℕ
  pub operation : Action
  pub encrypted_value : Text
  pub lifecycle_status : Lifecycle
  pub change_request_id : Text
  pub change_request_item_id : Text

pub data AuditAction : Type 0 where
  approve_request reject_request preview_request apply_request : AuditAction
  fulfill_request_value edit_request : AuditAction

-- A row of audit_logs, without its metadata.
pub record AuditRow : Type 0 where
  pub occurred_at : Text
  pub actor_user_id : Text
  pub action : AuditAction
  pub change_request_id : Text

pub record ServiceRow : Type 0 where
  pub organization_id : Text
  pub archived_at : Option Text

pub record EnvironmentRow : Type 0 where
  pub id : Text
  pub service_id : Text
  pub archived_at : Option Text

-- `items` are in the order of key and id, and so are the `variables` of an environment;
-- `active_dek_version` is the version of the one ACTIVE key of an environment.
pub record Db : Type 0 where
  pub requests : Table RequestRow
  pub items : List ItemRow
  pub variables : Text → List CurrentRow
  pub versions : List VersionRow
  pub services : Table ServiceRow
  pub environments : Table EnvironmentRow
  pub grants : List Grant
  pub active_dek_version : Text → Option ℕ
  pub audit : List AuditRow

-- `action IN ('ADD', 'UPDATE') AND encrypted_proposed_value IS NULL`
abbrev pub is_missing : ItemRow → Bool
is_missing i = is_write i.action && not (is_some i.encrypted_proposed_value)

abbrev pub has_missing : List ItemRow → Bool
has_missing = any is_missing

abbrev pub items_of : Db → Text → List ItemRow
items_of db request_id = filter (λ i. eq_text i.change_request_id request_id) db.items
