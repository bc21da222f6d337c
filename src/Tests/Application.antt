-- ===== src/Tests/Application.antt =====
-- The request previewed and applied. `toy_sha256` is the sum of its input in 32 bytes.
use configdeck.Auth.Session.{require_full, full}
use configdeck.Crypto.Bytes.{be_bytes}
use configdeck.Errors.{ok, err, conflict}
use configdeck.Prelude.Space.{is_whitespace, trim_start, trim_end, trim}
use configdeck.Prelude.Tables.{put}
use configdeck.Prelude.{
  ℕ, ◌+◌, ◌≡◌, ◌↔◌, refl, true, none, some, List, [], ◌∷◌, ◌++◌, Text, codes, eq_text, lt_text,
  utf8, length,
}
use configdeck.Requests.Apply.Commit.{
  Codec, Prepared, mutable_environment, preview_request_row, preview_requests, preview_resulting,
  apply_prepare, apply_request_row, apply_requests, apply_commit, mark_applied,
}
use configdeck.Requests.Apply.Outcome.{IsCommitted, apply_commit-IsCommitted, mark_applied_needs}
use configdeck.Requests.Apply.{Vault, prepare_apply_item, prepare_apply_items}
use configdeck.Requests.Apply.Persist.{persist_apply_item, persist_all}
use configdeck.Requests.Rows.{
  ready_to_apply, preview_request, RequestRow, WorkflowRequestRow, ItemRow, Db,
}
use configdeck.Requests.Schema.{
  is_consistent, ready_trigger, apply_trigger, update_status, update_request,
}
use configdeck.Requests.Selection.Laws.{IsSelection, validate_selection_iff}
use configdeck.Requests.Selection.{
  normalize_request_ids, load_workflow_requests, load_workflow_items, authorize_selection,
  validate_items, validate_selection, digest_request, digest_item, digest_variable,
  selection_fingerprint,
}
use configdeck.Requests.Workflow.{
  insert_request_audit, workflow_request, authorize_workflow_request,
}
use configdeck.Tests.Rows.{now, a_request, an_item, db_of, after}
use configdeck.Tests.Sessions.{an_operator}
use configdeck.Users.{allows, apply_request as may_apply, can_access_service}

abbrev zeros8 : List ℕ
zeros8 = 0 ∷ 0 ∷ 0 ∷ 0 ∷ 0 ∷ 0 ∷ 0 ∷ 0 ∷ []

abbrev sum : List ℕ → ℕ
sum [] = 0
sum (b ∷ bs) = b + sum bs

abbrev toy_sha256 : List ℕ → Text
toy_sha256 bytes = be_bytes 8 (sum bytes) ++ (zeros8 ++ (zeros8 ++ zeros8))

abbrev codec : Codec
codec = record { is_uuid = λ id. true; decode_hex = λ text. some text; sha256 = toy_sha256 }

abbrev vault : Vault
vault = record {
  active_dek_version = ok 1;
  decrypt_proposed_row = λ item. ok (codes "8080");
  decrypt_current_row = λ row. ok (codes "8080");
  encrypt_current_value =
      λ id version value. ok (record { ciphertext = codes "resealed"; nonce = codes "nonce" });
}

abbrev ready_row : RequestRow
ready_row = record a_request {
  status = ready_to_apply;
  approved_by = some (codes "u");
  approved_at = some now;
  revision = 2;
}

abbrev ready_db : Db
ready_db = db_of ready_row

abbrev workflow_row : WorkflowRequestRow
workflow_row = record {
  id = codes "r";
  organization_id = codes "o";
  service_id = codes "s";
  environment_id = codes "e";
  status = ready_to_apply;
  revision = 2;
  approved_at = some now;
  preview_fingerprint = none;
}

validate_selection_iff_example :
    (validate_selection (workflow_row ∷ []) (an_item ∷ []) ≡ ok tt)
    ↔ IsSelection (workflow_row ∷ []) (an_item ∷ [])
validate_selection_iff_example = validate_selection_iff (workflow_row ∷ []) (an_item ∷ [])

-- what `toy_sha256` makes of this selection
abbrev fingerprint : Text
fingerprint = (0 ∷ 0 ∷ 0 ∷ 0 ∷ 0 ∷ 0 ∷ 39 ∷ 15 ∷ []) ++ (zeros8 ++ (zeros8 ++ zeros8))

abbrev previewed_row : RequestRow
previewed_row = record ready_row { preview_fingerprint = some fingerprint }

abbrev previewed_db : Db
previewed_db = record ready_db {
  requests = put ready_db.requests (codes "r") previewed_row;
  audit =
      record {
        occurred_at = now;
        actor_user_id = codes "u";
        action = preview_request;
        change_request_id = codes "r";
      }
      ∷ [];
}

run_preview :
    preview_resulting codec
      (λ items current. ok [])
      an_operator
      true
      (codes "r" ∷ [])
      now
      ready_db
      ready_db
    ≡ ok previewed_db
unfolding eq_text is_whitespace trim trim_start trim_end lt_text utf8 be_bytes require_full allows
    mutable_environment can_access_service normalize_request_ids load_workflow_requests
    load_workflow_items workflow_request authorize_workflow_request authorize_selection
    validate_items validate_selection digest_request digest_item digest_variable
    selection_fingerprint insert_request_audit is_consistent ready_trigger apply_trigger
    update_status update_request preview_resulting preview_requests preview_request_row
run_preview = refl

abbrev fresh : ItemRow → Text
fresh item = codes "v"

abbrev one_id : List Text
one_id = codes "r" ∷ []

-- The database after the preview, applied.
abbrev applied_db : Db
applied_db = after previewed_db (
    mark_applied codec vault fresh an_operator true one_id fingerprint now previewed_db
      previewed_db)

run_apply :
    mark_applied codec vault fresh an_operator true one_id fingerprint now previewed_db previewed_db
    ≡ ok applied_db
unfolding eq_text is_whitespace trim trim_start trim_end lt_text utf8 be_bytes require_full allows
    mutable_environment can_access_service normalize_request_ids load_workflow_requests
    load_workflow_items workflow_request authorize_workflow_request authorize_selection
    validate_items validate_selection digest_request digest_item digest_variable
    selection_fingerprint insert_request_audit is_consistent ready_trigger apply_trigger
    update_status update_request mark_applied apply_prepare apply_commit prepare_apply_items
    prepare_apply_item persist_all persist_apply_item apply_requests apply_request_row
run_apply = refl

-- The preview has to be repeated after any change: here the request has another revision.
run_stale :
    mark_applied codec vault fresh an_operator true one_id fingerprint now previewed_db
      (db_of (record previewed_row { revision = 3 }))
    ≡ err conflict
unfolding eq_text is_whitespace trim trim_start trim_end lt_text utf8 be_bytes require_full allows
    mutable_environment can_access_service normalize_request_ids load_workflow_requests
    load_workflow_items workflow_request authorize_workflow_request authorize_selection
    validate_items validate_selection digest_request digest_item digest_variable
    selection_fingerprint insert_request_audit is_consistent ready_trigger apply_trigger
    update_status update_request mark_applied apply_prepare apply_commit prepare_apply_items
    prepare_apply_item persist_all persist_apply_item apply_requests apply_request_row
run_stale = refl

mark_applied_needs_example :
    (an_operator.authentication_state ≡ full)
    × (allows an_operator.user.role may_apply ≡ true)
    × (true ≡ true)
    × ((p : Prepared) × (codec.decode_hex fingerprint ≡ some p.expected_fingerprint)
        × (length p.expected_fingerprint ≡ 32)
        × (prepare_apply_items vault fresh
              (load_workflow_items previewed_db p.request_ids)
              (previewed_db.variables p.environment_id)
            ≡ ok p.writes)
        × IsCommitted codec an_operator now p previewed_db applied_db)
mark_applied_needs_example =
    mark_applied_needs codec an_operator now vault fresh true one_id fingerprint previewed_db
      previewed_db run_apply

abbrev prepared : Prepared
prepared = record {
  request_ids = one_id;
  environment_id = codes "e";
  expected_fingerprint = fingerprint;
  writes = [];
}

abbrev committed_db : Db
committed_db = after previewed_db (apply_commit codec an_operator prepared now previewed_db)

run_commit : apply_commit codec an_operator prepared now previewed_db ≡ ok committed_db
unfolding eq_text is_whitespace trim trim_start trim_end lt_text utf8 be_bytes require_full allows
    mutable_environment can_access_service normalize_request_ids load_workflow_requests
    load_workflow_items workflow_request authorize_workflow_request authorize_selection
    validate_items validate_selection digest_request digest_item digest_variable
    selection_fingerprint insert_request_audit is_consistent ready_trigger apply_trigger
    update_status update_request apply_commit persist_all apply_requests apply_request_row
run_commit = refl

apply_commit-IsCommitted_example :
    IsCommitted codec an_operator now prepared previewed_db committed_db
apply_commit-IsCommitted_example =
    apply_commit-IsCommitted codec an_operator now prepared previewed_db run_commit
