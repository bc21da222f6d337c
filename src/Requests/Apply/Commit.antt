-- ===== src/Requests/Apply/Commit.antt =====
-- `preview_resulting` and `mark_applied` of src/requests/mod.rs. Each reads the database once
-- outside of its transaction, so it takes two databases: `before` as it was at that reading, and
-- `db` as the transaction finds it. `recent` is the answer of `has_recent_auth`, `now` the time
-- that is written.
use configdeck.Auth.Session.{AuthenticatedSession, require_full}
use configdeck.Errors.{
  Result, ok, err, ◌>>=◌, ◌>>◌, require, ok_or, forbidden, not_found, conflict, invalid_request,
  database,
}
use configdeck.Prelude.Tables.{row_where}
use configdeck.Prelude.{
  ℕ, ◌+◌, Bool, not, ◌&&◌, ◌||◌, List, [], ◌∷◌, Option, some, Text, eq_text, eq_some, length, ◌==◌,
  all, is_some,
}
use configdeck.Requests.Apply.{Vault, PreparedApply, prepare_apply_items}
use configdeck.Requests.Apply.Persist.{persist_all}
use configdeck.Requests.Rows.{
  RequestRow, WorkflowRequestRow, ItemRow, CurrentRow, Db, applied, is_ready, apply_request,
  preview_request,
}
use configdeck.Requests.Schema.{update_status, update_request}
use configdeck.Requests.Selection.{
  load_workflow_requests, load_workflow_items, authorize_selection, validate_selection,
  selection_fingerprint, normalize_request_ids,
}
use configdeck.Requests.Workflow.{insert_request_audit}
use configdeck.Users.{allows, review_request, apply_request as may_apply, can_access_service}

-- `environment_context` and `ensure_mutable` of src/variables/mod.rs, one after the other.
unfoldable pub mutable_environment : AuthenticatedSession → Text → Db → Result (Unit {0})
mutable_environment session environment_id db = do
  environment ← ok_or not_found (db.environments environment_id)
  service ← ok_or not_found (db.services environment.service_id)
  require (eq_text service.organization_id session.user.organization_id) not_found
  require (can_access_service db.grants session.user.id session.user.role environment.service_id)
      not_found
  require (not (is_some environment.archived_at || is_some service.archived_at)) conflict

-- `requests[0].environment_id`; the list is not empty where it is read.
abbrev pub first_environment : List WorkflowRequestRow → Result Text
first_environment [] = err forbidden
first_environment (r ∷ rs) = ok r.environment_id

-- What the program takes from its libraries: the parsing of UUIDs, hexadecimal and SHA-256.
pub record Codec : Type 0 where
  pub is_uuid : Text → Bool
  pub decode_hex : Text → Option Text
  pub sha256 : List ℕ → Text

-- One round of the loop of `preview_resulting`.
unfoldable pub preview_request_row :
    AuthenticatedSession → Text → Text → WorkflowRequestRow → Db → Result Db
preview_request_row session fingerprint now request db = do
  row ←
      ok_or conflict (
        row_where db.requests request.id (λ r. r.revision == request.revision && is_ready r.status))
  db' ← update_request request.id db (record row { preview_fingerprint = some fingerprint })
  ok (insert_request_audit session request.id preview_request now db')

unfoldable pub preview_requests :
    AuthenticatedSession → Text → Text → List WorkflowRequestRow → Db → Result Db
preview_requests session fingerprint now [] db = ok db
preview_requests session fingerprint now (r ∷ rs) db = do
  db' ← preview_request_row session fingerprint now r db
  preview_requests session fingerprint now rs db'

-- What `mark_applied` carries into its transaction.
pub record Prepared : Type 0 where
  pub request_ids : List Text
  pub environment_id : Text
  pub expected_fingerprint : Text
  pub writes : List PreparedApply

abbrev pub applied_row : AuthenticatedSession → Text → RequestRow → RequestRow
applied_row session now row = record row {
  status = applied;
  applied_by = some session.user.id;
  applied_at = some now;
  revision = row.revision + 1;
}

-- One round of the last loop of `mark_applied`.
unfoldable pub apply_request_row :
    AuthenticatedSession → Text → Text → WorkflowRequestRow → Db → Result Db
apply_request_row session expected now request db = do
  row ← ok_or conflict (
      row_where db.requests request.id (λ r.
        r.revision == request.revision
        && is_ready r.status
        && eq_some r.preview_fingerprint expected))
  db' ← update_status request.id db row (applied_row session now row)
  ok (insert_request_audit session request.id apply_request now db')

unfoldable pub apply_requests :
    AuthenticatedSession → Text → Text → List WorkflowRequestRow → Db → Result Db
apply_requests session expected now [] db = ok db
apply_requests session expected now (r ∷ rs) db = do
  db' ← apply_request_row session expected now r db
  apply_requests session expected now rs db'

module _ (codec : Codec) where
  abbrev pub fingerprint_in : Db → List WorkflowRequestRow → List ItemRow → Text → Text
  fingerprint_in db requests items environment_id =
      selection_fingerprint codec.sha256 requests items (db.variables environment_id)

  -- `resolve` is `resolve_dotenv` with `editable_items`: what the preview shows, or why there is
  -- none.
  unfoldable pub preview_resulting :
      (List ItemRow → List CurrentRow → Result Text)
      → AuthenticatedSession
      → Bool
      → List Text
      → Text
      → Db
      → Db
      → Result Db
  unfolding require_full allows
  preview_resulting resolve session recent request_ids now before db = do
    require_full session
    require (allows session.user.role review_request && recent) forbidden
    ids ← normalize_request_ids codec.is_uuid request_ids
    requests ← load_workflow_requests before ids
    authorize_selection session requests
    environment_id ← first_environment requests
    mutable_environment session environment_id before
    let items = load_workflow_items before ids
    validate_selection requests items
    dotenv ← resolve items (before.variables environment_id)
    preview_requests session (fingerprint_in before requests items environment_id) now requests db

  unfoldable pub apply_prepare :
      Vault
      → (ItemRow → Text)
      → AuthenticatedSession
      → Bool
      → List Text
      → Text
      → Db
      → Result Prepared
  unfolding require_full allows
  apply_prepare vault fresh session recent request_ids fingerprint before = do
    require_full session
    require (allows session.user.role may_apply && recent) forbidden
    expected ← ok_or invalid_request (codec.decode_hex fingerprint)
    require (length expected == 32) invalid_request
    ids ← normalize_request_ids codec.is_uuid request_ids
    requests ← load_workflow_requests before ids
    authorize_selection session requests
    environment_id ← first_environment requests
    let items = load_workflow_items before ids
    validate_selection requests items
    mutable_environment session environment_id before
    writes ← prepare_apply_items vault fresh items (before.variables environment_id)
    ok (record {
      request_ids = ids;
      environment_id = environment_id;
      expected_fingerprint = expected;
      writes = writes;
    })

  -- The guard of the transaction.
  abbrev pub is_current : Prepared → List WorkflowRequestRow → List ItemRow → ℕ → Db → Bool
  is_current p requests items active_dek_version db =
      eq_text (fingerprint_in db requests items p.environment_id) p.expected_fingerprint
      && all (λ w. w.dek_version == active_dek_version) p.writes
      && all (λ r. eq_some r.preview_fingerprint p.expected_fingerprint) requests

  unfoldable pub apply_commit : AuthenticatedSession → Prepared → Text → Db → Result Db
  apply_commit session p now db = do
    requests ← load_workflow_requests db p.request_ids
    authorize_selection session requests
    let items = load_workflow_items db p.request_ids
    validate_selection requests items
    active_dek_version ← ok_or database (db.active_dek_version p.environment_id)
    require (is_current p requests items active_dek_version db) conflict
    written ← persist_all p.environment_id p.writes db
    apply_requests session p.expected_fingerprint now requests written

  unfoldable pub mark_applied :
      Vault
      → (ItemRow → Text)
      → AuthenticatedSession
      → Bool
      → List Text
      → Text
      → Text
      → Db
      → Db
      → Result Db
  mark_applied vault fresh session recent request_ids fingerprint now before db = do
    p ← apply_prepare vault fresh session recent request_ids fingerprint before
    apply_commit session p now db
