-- ===== src/Requests/Apply/Outcome.antt =====
-- What a successful `mark_applied` has checked and has written.
use configdeck.Auth.Session.{AuthenticatedSession, full}
use configdeck.Errors.{
  ok, require, ok_or, conflict, database, >>=-eq-ok, >>-eq-ok, require-eq-ok, ok_or-eq-ok,
}
use configdeck.Prelude.{
  ℕ, ◌≡◌, ◌∙◌, Bool, true, List, ◌++◌, some, Text, arith, map, eq_some, eq_some→eq, All, all,
  all_iff, All-map, eq_text_iff, ◌==◌, length,
}
use configdeck.Requests.Apply.Commit.{
  Codec, Prepared, apply_commit, apply_requests, apply_prepare, mark_applied, fingerprint_in,
  is_current,
}
use configdeck.Requests.Apply.Effects.{IsApplied, persist_all-IsWritten, apply_requests-IsApplied}
use configdeck.Requests.Apply.{Vault, prepare_apply_items}
use configdeck.Requests.Apply.Persist.{persist_all, version_row}
use configdeck.Requests.Rows.{WorkflowRequestRow, ItemRow, Db}
use configdeck.Requests.Selection.Laws.{IsSelection, validate_selection-IsSelection}
use configdeck.Requests.Selection.{
  load_workflow_requests, load_workflow_items, authorize_selection, validate_selection,
}
use configdeck.Users.{allows, apply_request as may_apply}

module _ (codec : Codec) (session : AuthenticatedSession) (now : Text) where
  -- What the transaction found, and what it left.
  pub record IsCommitted (p : Prepared) (db db' : Db) : Type 0 where
    pub requests : List WorkflowRequestRow
    pub loaded : load_workflow_requests db p.request_ids ≡ ok requests
    pub selection : IsSelection requests (load_workflow_items db p.request_ids)
    pub unchanged_since_preview :
        fingerprint_in codec db requests (load_workflow_items db p.request_ids) p.environment_id
        ≡ p.expected_fingerprint
    pub previewed : All (λ r. r.preview_fingerprint ≡ some p.expected_fingerprint) requests
    pub active_dek_version : ℕ
    pub current_key : db.active_dek_version p.environment_id ≡ some active_dek_version
    pub sealed_under_it : All (λ w. w.dek_version ≡ active_dek_version) p.writes
    pub applied : All (λ r. IsApplied db' r.id) requests
    pub history : db'.versions ≡ db.versions ++ map version_row p.writes

  pub apply_commit_writes :
      (p : Prepared) (db : Db) {db' : Db}
      → apply_commit codec session p now db ≡ ok db'
      → (requests : List WorkflowRequestRow) × (written : Db) × (persist_all p.environment_id
            p.writes db
          ≡ ok written)
        × (apply_requests session p.expected_fingerprint now requests written ≡ ok db')
  unfolding apply_commit
  apply_commit_writes p db h =
      let items = load_workflow_items db p.request_ids in
      let (requests, _, h1) = >>=-eq-ok (load_workflow_requests db p.request_ids) _ h in
      let (_, h2) = >>-eq-ok (authorize_selection session requests) _ h1 in
      let (_, h3) = >>-eq-ok (validate_selection requests items) _ h2 in
      let (version, _, h4) =
        >>=-eq-ok (ok_or database (db.active_dek_version p.environment_id)) _ h3 in
      let (_, h5) =
        >>-eq-ok (require (is_current codec p requests items version db) conflict) _ h4 in
      let (written, w, last) = >>=-eq-ok (persist_all p.environment_id p.writes db) _ h5 in
      (requests, written, w, last)

  -- A transaction that commits has found a valid selection whose content has the fingerprint that
  -- the user confirmed, on every request as well, and values sealed under the key that is active;
  -- it leaves every request of the selection applied and one line of history for each prepared
  -- write, in order.
  pub apply_commit-IsCommitted :
      (p : Prepared) (db : Db) {db' : Db}
      → apply_commit codec session p now db ≡ ok db'
      → IsCommitted p db db'
  unfolding apply_commit
  apply_commit-IsCommitted p db {db'} h =
      let items = load_workflow_items db p.request_ids in
      let (requests, loaded, h1) = >>=-eq-ok (load_workflow_requests db p.request_ids) _ h in
      let (_, h2) = >>-eq-ok (authorize_selection session requests) _ h1 in
      let (valid, h3) = >>-eq-ok (validate_selection requests items) _ h2 in
      let (version, key, h4) =
        >>=-eq-ok (ok_or database (db.active_dek_version p.environment_id)) _ h3 in
      let (guard, h5) =
        >>-eq-ok (require (is_current codec p requests items version db) conflict) _ h4 in
      let passed = require-eq-ok (is_current codec p requests items version db) conflict guard in
      let (written, w, last) = >>=-eq-ok (persist_all p.environment_id p.writes db) _ h5 in
      let (applied, versions, _) =
        apply_requests-IsApplied session p.expected_fingerprint now requests written last in
      let keyed : all (λ w. w.dek_version == version) p.writes ≡ true = ground arith in
      let same : all (λ r. eq_some r.preview_fingerprint p.expected_fingerprint) requests ≡ true =
        ground arith in
      record {
        requests = requests;
        loaded = loaded;
        selection = validate_selection-IsSelection requests items valid;
        unchanged_since_preview = ground (
          arith,
          eq_text_iff (fingerprint_in codec db requests items p.environment_id)
              p.expected_fingerprint,
        );
        previewed =
            All-map _ _ (λ r. eq_some→eq r.preview_fingerprint p.expected_fingerprint) requests
              ((all_iff _ requests).0 same);
        active_dek_version = version;
        current_key = ok_or-eq-ok database (db.active_dek_version p.environment_id) key;
        sealed_under_it = All-map _ _ (λ w e. ground arith) p.writes ((all_iff _ p.writes).0 keyed);
        applied = applied;
        history = versions ∙ (persist_all-IsWritten p.environment_id p.writes db w).versions;
      }

  prepare_needs :
      (vault : Vault) (fresh : ItemRow → Text) (recent : Bool) (request_ids : List Text)
      (fingerprint : Text) (before : Db) {p : Prepared}
      → apply_prepare codec vault fresh session recent request_ids fingerprint before ≡ ok p
      → (session.authentication_state ≡ full)
        × (allows session.user.role may_apply ≡ true)
        × (recent ≡ true)
        × ((codec.decode_hex fingerprint ≡ some p.expected_fingerprint)
            × (length p.expected_fingerprint ≡ 32)
            × (prepare_apply_items vault fresh
                  (load_workflow_items before p.request_ids)
                  (before.variables p.environment_id)
                ≡ ok p.writes))
  unfolding apply_prepare
  prepare_needs vault fresh recent request_ids fingerprint before {p} h =
      (ground arith, ground arith, ground arith, (ground arith, ground arith, ground arith))

  -- Nobody applies anything without a full, recently confirmed session and the right to apply, nor
  -- on a fingerprint that is not 32 bytes of hexadecimal; what is applied commits as above, with
  -- the writes that were prepared for the selection as it was before the transaction.
  pub mark_applied_needs :
      (vault : Vault) (fresh : ItemRow → Text) (recent : Bool) (request_ids : List Text)
      (fingerprint : Text) (before db : Db) {db' : Db}
      → mark_applied codec vault fresh session recent request_ids fingerprint now before db ≡ ok db'
      → (session.authentication_state ≡ full)
        × (allows session.user.role may_apply ≡ true)
        × (recent ≡ true)
        × ((p : Prepared) × (codec.decode_hex fingerprint ≡ some p.expected_fingerprint)
            × (length p.expected_fingerprint ≡ 32)
            × (prepare_apply_items vault fresh
                  (load_workflow_items before p.request_ids)
                  (before.variables p.environment_id)
                ≡ ok p.writes)
            × IsCommitted p db db')
  unfolding mark_applied
  mark_applied_needs vault fresh recent request_ids fingerprint before db h =
      let (p, prepared, h1) =
        >>=-eq-ok (apply_prepare codec vault fresh session recent request_ids fingerprint before) _
          h in
      let (f, a, r, rest) =
        prepare_needs vault fresh recent request_ids fingerprint before prepared in
      (f, a, r, (p, rest.0, rest.1, rest.2, apply_commit-IsCommitted p db h1))
