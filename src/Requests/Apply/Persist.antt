-- ===== src/Requests/Apply/Persist.antt =====
-- `persist_apply_item` of src/requests/mod.rs: the rows that an application writes.

use configdeck.Errors.{Result, ok, ◌>>=◌, ◌>>◌, require, conflict, database}
use configdeck.Prelude.{
  ℕ, Bool, true, false, not, ◌&&◌, ◌||◌, List, [], ◌∷◌, ◌++◌, Option, none, some, Text, eq_text,
  lt_text, ◌==◌, if◌then◌else◌, any, update_where,
}
use configdeck.Requests.Rows.{
  CurrentRow, VersionRow, Db, Action, delete, Lifecycle, active, deleted,
}
use configdeck.Requests.Apply.{PreparedApply}

abbrev pub resulting_lifecycle : Action → Lifecycle
resulting_lifecycle delete = deleted
resulting_lifecycle _ = active

-- The row that the write leaves in the table variables.
abbrev pub written_row : PreparedApply → ℕ → Lifecycle → CurrentRow
written_row w version lifecycle = record {
  id = w.variable_id;
  key = w.key;
  encrypted_value = w.encrypted.ciphertext;
  value_nonce = w.encrypted.nonce;
  dek_version = w.dek_version;
  visibility = w.visibility;
  value_type = w.value_type;
  description = w.description;
  group_name = w.group_name;
  display_order = w.display_order;
  version = version;
  lifecycle_status = lifecycle;
}

-- The rows of an environment are kept in the order of their keys.
abbrev pub insert_row : CurrentRow → List CurrentRow → List CurrentRow
insert_row row [] = row ∷ []
insert_row row (r ∷ rs) =
    let rest = insert_row row rs in if lt_text row.key r.key then row ∷ r ∷ rs else r ∷ rest

eq_lifecycle : Lifecycle → Lifecycle → Bool
eq_lifecycle active active = true
eq_lifecycle deleted deleted = true
eq_lifecycle _ _ = false

-- `WHERE id = ? AND environment_id = ? AND version = ? AND lifecycle_status = ?`
unfoldable pub is_expected : PreparedApply → ℕ → Lifecycle → CurrentRow → Bool
unfolding eq_lifecycle
is_expected w version lifecycle r =
    eq_text r.id w.variable_id && r.version == version && eq_lifecycle r.lifecycle_status lifecycle

-- The `INSERT` or `UPDATE` of the table variables; an `UPDATE` keeps the key of the row.
write_variable : PreparedApply → Option (ℕ × Lifecycle) → List CurrentRow → Result (List CurrentRow)
write_variable w none rows = do
  require (not (any (λ r. eq_text r.key w.key || eq_text r.id w.variable_id) rows)) database
  ok (insert_row (written_row w 1 active) rows)
write_variable w (some (version, lifecycle)) rows = do
  require (any (is_expected w version lifecycle) rows) conflict
  ok (
      update_where (is_expected w version lifecycle)
        (λ r. record (written_row w w.version (resulting_lifecycle w.action)) { key = r.key }) rows)

abbrev pub version_row : PreparedApply → VersionRow
version_row w = record {
  variable_id = w.variable_id;
  version = w.version;
  operation = w.action;
  encrypted_value = w.encrypted.ciphertext;
  lifecycle_status = resulting_lifecycle w.action;
  change_request_id = w.request_id;
  change_request_item_id = w.item_id;
}

abbrev set_variables : Text → List CurrentRow → (Text → List CurrentRow) → Text → List CurrentRow
set_variables id rows variables j = if eq_text id j then rows else variables j

unfoldable pub persist_apply_item : Text → PreparedApply → Db → Result Db
unfolding write_variable is_expected
persist_apply_item environment_id w db = do
  rows ← write_variable w w.expected (db.variables environment_id)
  require
      (not (any (λ v. eq_text v.variable_id w.variable_id && v.version == w.version) db.versions))
      database
  ok (record db {
    variables = set_variables environment_id rows db.variables;
    versions = db.versions ++ (version_row w ∷ []);
  })

unfoldable pub persist_all : Text → List PreparedApply → Db → Result Db
persist_all environment_id [] db = ok db
persist_all environment_id (w ∷ ws) db = do
  db' ← persist_apply_item environment_id w db
  persist_all environment_id ws db'
