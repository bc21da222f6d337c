-- ===== src/Requests/Workflow.antt =====
-- `approve`, `reject` and `fulfill_value` of src/requests/mod.rs. A transaction is a function from
-- the database to an error, which leaves the database as it was, or to the new database. The text
-- `now` is the time that the program writes; `recent` is the answer of `has_recent_auth`.
use configdeck.Auth.Session.{AuthenticatedSession, require_full}
use configdeck.Errors.{
  Result, ok, ◌>>=◌, ◌>>◌, require, ok_or, forbidden, not_found, conflict, database,
}
use configdeck.Prelude.Tables.{row_where}
use configdeck.Prelude.{
  ℕ, ◌+◌, ◌^◌, Bool, not, ◌&&◌, ◌||◌, [], ◌∷◌, ◌++◌, none, some, Text, codes, eq_text, ◌==◌, ltb,
  if◌then◌else◌, find, update_where, eq_some, is_some,
}
use configdeck.Requests.Rows.{
  Status, requested, needs_input, ready_to_apply, rejected, RequestRow, WorkflowRequestRow, ItemRow,
  Db, AuditAction, approve_request, reject_request, fulfill_request_value, is_open, is_pending,
  is_write, has_missing, items_of, eq_status,
}
use configdeck.Requests.Schema.{update_status}
use configdeck.Variables.Validate.{validate_reason, validate_value}
use configdeck.Users.{allows, review_request, fulfill_value as may_fulfill_value}

-- `workflow_request_in_transaction`: the query joins the request with its service.
unfoldable pub workflow_request : Db → Text → Result WorkflowRequestRow
workflow_request db id = do
  r ← ok_or not_found (db.requests id)
  s ← ok_or not_found (db.services r.service_id)
  ok (record {
    id = r.id;
    organization_id = s.organization_id;
    service_id = r.service_id;
    environment_id = r.environment_id;
    status = r.status;
    revision = r.revision;
    approved_at = r.approved_at;
    preview_fingerprint = r.preview_fingerprint;
  })

unfoldable pub authorize_workflow_request :
    AuthenticatedSession → WorkflowRequestRow → Result (Unit {0})
authorize_workflow_request session request =
    require (eq_text request.organization_id session.user.organization_id) not_found

unfoldable pub insert_request_audit : AuthenticatedSession → Text → AuditAction → Text → Db → Db
insert_request_audit session request_id action now db = record db {
  audit =
      db.audit
      ++ (record {
        occurred_at = now;
        actor_user_id = session.user.id;
        action = action;
        change_request_id = request_id;
      }
          ∷ []);
}

-- the row that `approve` writes
abbrev pub approved_row : AuthenticatedSession → Text → Bool → RequestRow → RequestRow
approved_row session now missing row = record row {
  status = if missing then needs_input else ready_to_apply;
  approved_by = some session.user.id;
  approved_at = some now;
  revision = row.revision + 1;
  preview_fingerprint = none;
}

unfoldable pub approve : AuthenticatedSession → Text → Text → Db → Result Db
unfolding require_full allows authorize_workflow_request workflow_request
approve session request_id now db = do
  require_full session
  require (allows session.user.role review_request) forbidden
  request ← workflow_request db request_id
  authorize_workflow_request session request
  require (is_pending request.status && not (is_some request.approved_at)) conflict
  row ← ok_or conflict (
      row_where db.requests request_id
        (λ r. r.revision == request.revision && not (is_some r.approved_at)))
  db' ←
      update_status request_id db row
        (approved_row session now (has_missing (items_of db request_id)) row)
  ok (insert_request_audit session request_id approve_request now db')

-- the row that `reject` writes
abbrev pub rejected_row : AuthenticatedSession → Text → Text → RequestRow → RequestRow
rejected_row session reason now row = record row {
  status = rejected;
  rejected_by = some session.user.id;
  rejected_at = some now;
  rejection_reason = some reason;
  revision = row.revision + 1;
  preview_fingerprint = none;
}

unfoldable pub reject : AuthenticatedSession → Text → Text → Text → Db → Result Db
unfolding require_full allows authorize_workflow_request workflow_request
reject session request_id reason now db = do
  require_full session
  require (allows session.user.role review_request) forbidden
  reason ← validate_reason reason
  request ← workflow_request db request_id
  authorize_workflow_request session request
  require (is_open request.status) conflict
  row ← ok_or conflict (
      row_where db.requests request_id
        (λ r. r.revision == request.revision && eq_status r.status request.status))
  db' ← update_status request_id db row (rejected_row session reason now row)
  ok (insert_request_audit session request_id reject_request now db')

-- What sealing a value for an item gives: what `encrypt_proposed_value` makes, and the version of
-- the key.
pub record SealedValue : Type 0 where
  pub ciphertext : Text
  pub nonce : Text
  pub dek_version : ℕ

-- `FulfillRow`
pub record FulfillRow : Type 0 where
  pub request : WorkflowRequestRow
  pub item : ItemRow

abbrev pub is_fulfillable : Text → ItemRow → Bool
is_fulfillable item_id i =
    eq_text i.id item_id
    && eq_some i.value_source (codes "OPERATOR_PROVIDED")
    && not (is_some i.encrypted_proposed_value)

-- The first half of `fulfill_value`, on the database as it is before the transaction.
unfoldable pub fulfill_lookup :
    (Text → Bool) → AuthenticatedSession → Bool → Text → Text → Db → Result FulfillRow
unfolding require_full allows authorize_workflow_request workflow_request
fulfill_lookup is_url session recent item_id value db = do
  require_full session
  require (allows session.user.role may_fulfill_value) forbidden
  item ← ok_or not_found (find (is_fulfillable item_id) db.items)
  request ← workflow_request db item.change_request_id
  authorize_workflow_request session request
  require (is_pending request.status && is_write item.action) conflict
  require (not (eq_text item.proposed_visibility (codes "restricted")) || recent) forbidden
  validate_value is_url value item.proposed_value_type
  ok (record { request = request; item = item })

-- `WHERE id = ? AND item_revision = ? AND encrypted_proposed_value IS NULL`
abbrev pub is_target : Text → ℕ → ItemRow → Bool
is_target item_id revision i =
    eq_text i.id item_id && i.item_revision == revision && not (is_some i.encrypted_proposed_value)

abbrev pub filled_item : SealedValue → Text → ℕ → ItemRow → ItemRow
filled_item sealed now revision i = record i {
  encrypted_proposed_value = some sealed.ciphertext;
  proposed_value_nonce = some sealed.nonce;
  proposed_dek_version = some sealed.dek_version;
  value_fulfilled_at = some now;
  item_revision = revision;
}

abbrev pub fulfilled_status : Bool → Bool → Status
fulfilled_status missing approved =
    if missing then needs_input else if approved then ready_to_apply else requested

-- The transaction of `fulfill_value`, on the database as it is then.
unfoldable pub fulfill_store :
    AuthenticatedSession → FulfillRow → SealedValue → Text → Db → Result Db
fulfill_store session f sealed now db = do
  let id = f.request.id
  let target = is_target f.item.id f.item.item_revision
  require (is_some (find target db.items)) conflict
  let filled = record db {
    items = update_where target (filled_item sealed now (f.item.item_revision + 1)) db.items;
  }
  row ← ok_or database (filled.requests id)
  let status = fulfilled_status (has_missing (items_of filled id)) (is_some row.approved_at)
  db' ←
      update_status id filled row
        (record row { status = status; revision = row.revision + 1; preview_fingerprint = none })
  ok (insert_request_audit session id fulfill_request_value now db')

-- `before` is the database at the lookup, `db` the one that the transaction finds. `active_dek` is
-- `environments::active_dek`, and `seal` is `encrypt_proposed_value` under the key that it found.
unfoldable pub fulfill_value {ℓ} :
    {Dek : Type ℓ}
    → (Text → Bool)
    → (Text → Result Dek)
    → (FulfillRow → Dek → Text → Result SealedValue)
    → AuthenticatedSession
    → Bool
    → Text
    → Text
    → Text
    → Db
    → Db
    → Result Db
fulfill_value is_url active_dek seal session recent item_id value now before db = do
  f ← fulfill_lookup is_url session recent item_id value before
  dek ← active_dek f.request.environment_id
  require (ltb (f.item.item_revision + 1) (2 ^ 63)) conflict
  sealed ← seal f dek value
  fulfill_store session f sealed now db
