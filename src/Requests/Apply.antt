-- ===== src/Requests/Apply.antt =====
-- `prepare_apply_items` of src/requests/mod.rs; `persist_apply_item` is in Apply/Persist.antt,
-- `preview_resulting` and `mark_applied` are in Apply/Commit.antt.
pub mod Persist
pub mod Commit
pub mod Effects
pub mod Outcome
use configdeck.Auth.Session.{AuthenticatedSession, require_full}
use configdeck.Errors.{
  Result, ok, err, ◌>>=◌, ◌>>◌, require, ok_or, forbidden, not_found, conflict, invalid_request,
  database, crypto,
}
use configdeck.Prelude.Tables.{row_where}
use configdeck.Prelude.{
  ℕ, zero, suc, ◌+◌, ◌^◌, Bool, true, false, not, ◌&&◌, ◌||◌, List, [], ◌∷◌, ◌++◌, Option, none,
  some, Text, eq_text, eq_some, lt_text, length, ◌==◌, ltb, if◌then◌else◌, any, all, find,
  update_where, is_some,
}
use configdeck.Requests.Rows.{
  RequestRow, WorkflowRequestRow, ItemRow, CurrentRow, VersionRow, Db, Status, ready_to_apply,
  applied, Action, add, update, delete, Lifecycle, active, deleted, is_ready, apply_request,
  preview_request, ServiceRow, EnvironmentRow,
}
use configdeck.Requests.Schema.{update_status, update_request}
use configdeck.Requests.Selection.{
  load_workflow_requests, load_workflow_items, authorize_selection, validate_selection,
  selection_fingerprint, normalize_request_ids,
}
use configdeck.Requests.Workflow.{insert_request_audit}
use configdeck.Users.{allows, apply_request as may_apply, can_access_service, Grant}

pub record EncryptedBlob : Type 0 where
  pub ciphertext : Text
  pub nonce : Text

-- The values of the environment, as the operations below come by them on the database before the
-- transaction: `decrypt_proposed_row`, `decrypt_current_row`, the version of the active key, and
-- `encrypt_current_value` under it, for a variable and a version.
pub record Vault : Type 0 where
  pub active_dek_version : Result ℕ
  pub decrypt_proposed_row : ItemRow → Result Text
  pub decrypt_current_row : CurrentRow → Result Text
  pub encrypt_current_value : Text → ℕ → Text → Result EncryptedBlob

pub record PreparedApply : Type 0 where
  pub request_id : Text
  pub item_id : Text
  pub action : Action
  pub key : Text
  pub variable_id : Text
  pub expected : Option (ℕ × Lifecycle)
  pub version : ℕ
  pub visibility : Text
  pub value_type : Text
  pub description : Option Text
  pub group_name : Option Text
  pub display_order : ℕ
  pub encrypted : EncryptedBlob
  pub dek_version : ℕ

abbrev pub is_active : Lifecycle → Bool
is_active active = true
is_active deleted = false

-- The five values that the `match` on the action gives, before the value is encrypted. `expected`
-- joins `expected_version` and `expected_lifecycle`, which are there together.
pub record Target : Type 0 where
  pub variable_id : Text
  pub expected : Option (ℕ × Lifecycle)
  pub version : ℕ
  pub plaintext : Text

-- `row.version + 1`, an `i64`: past the largest it wraps to a negative number, which
-- `u64::try_from` then refuses.
abbrev pub next_version : ℕ → Result ℕ
next_version n = if ltb (n + 1) (2 ^ 63) then ok (n + 1) else err crypto

abbrev is_version : Option ℕ → ℕ → Bool
is_version none n = false
is_version (some m) n = m == n

-- the filter of "UPDATE" and "DELETE"
abbrev pub is_base : ItemRow → CurrentRow → Bool
is_base item row =
    is_active row.lifecycle_status
    && is_version item.base_variable_version row.version
    && eq_text row.key item.key

abbrev pub row_by_id : Option Text → List CurrentRow → Option CurrentRow
row_by_id none current = none
row_by_id (some id) current = find (λ r. eq_text r.id id) current

-- `Option::filter`
abbrev pub keep_if {ℓ} : {A : Type ℓ} → (A → Bool) → Option A → Option A
keep_if p none = none
keep_if p (some a) = if p a then some a else none

add_target : Vault → Text → ItemRow → Option CurrentRow → Result Target
add_target vault fresh item none = do
  plaintext ← vault.decrypt_proposed_row item
  ok (record { variable_id = fresh; expected = none; version = 1; plaintext = plaintext })
add_target vault fresh item (some row) = if is_active row.lifecycle_status then err conflict else do
  plaintext ← vault.decrypt_proposed_row item
  version ← next_version row.version
  ok (record {
    variable_id = row.id;
    expected = some (row.version, deleted);
    version = version;
    plaintext = plaintext;
  })

base_target : ItemRow → List CurrentRow → (CurrentRow → Result Text) → Result Target
base_target item current value = do
  row ← ok_or conflict (keep_if (is_base item) (row_by_id item.variable_id current))
  plaintext ← value row
  version ← next_version row.version
  ok (record {
    variable_id = row.id;
    expected = some (row.version, active);
    version = version;
    plaintext = plaintext;
  })

-- `fresh` is the identifier that `Uuid::new_v4` draws for the item, if it needs one.
target_in : Action → Vault → Text → ItemRow → List CurrentRow → Result Target
target_in add vault fresh item current =
    add_target vault fresh item (find (λ r. eq_text r.key item.key) current)
target_in update vault fresh item current =
    base_target item current (λ row. vault.decrypt_proposed_row item)
target_in delete vault fresh item current = base_target item current vault.decrypt_current_row

unfoldable pub prepare_apply_item :
    Vault → ℕ → Text → ItemRow → List CurrentRow → Result PreparedApply
unfolding target_in add_target base_target
prepare_apply_item vault dek_version fresh item current = do
  target ← target_in item.action vault fresh item current
  encrypted ← vault.encrypt_current_value target.variable_id target.version target.plaintext
  ok (record {
    request_id = item.change_request_id;
    item_id = item.id;
    action = item.action;
    key = item.key;
    variable_id = target.variable_id;
    expected = target.expected;
    version = target.version;
    visibility = item.proposed_visibility;
    value_type = item.proposed_value_type;
    description = item.proposed_description;
    group_name = item.proposed_group_name;
    display_order = item.proposed_display_order;
    encrypted = encrypted;
    dek_version = dek_version;
  })

prepare_each :
    Vault → ℕ → (ItemRow → Text) → List ItemRow → List CurrentRow → Result (List PreparedApply)
prepare_each vault dek_version fresh [] current = ok []
prepare_each vault dek_version fresh (item ∷ items) current = do
  write ← prepare_apply_item vault dek_version (fresh item) item current
  rest ← prepare_each vault dek_version fresh items current
  ok (write ∷ rest)

unfoldable pub prepare_apply_items :
    Vault → (ItemRow → Text) → List ItemRow → List CurrentRow → Result (List PreparedApply)
unfolding prepare_each
prepare_apply_items vault fresh items current = do
  dek_version ← vault.active_dek_version
  prepare_each vault dek_version fresh items current
