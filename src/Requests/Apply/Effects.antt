-- ===== src/Requests/Apply/Effects.antt =====
-- What the writes of an application do to the tables.
use configdeck.Auth.Session.{AuthenticatedSession}
use configdeck.Errors.{ok, ok_or, conflict, >>=-eq-ok, ok_or-eq-ok}
use configdeck.Prelude.Tables.{put, row_where, row_where-eq-some}
use configdeck.Prelude.{
  ◌≡◌, inl, inr, refl, sym, ap, ◌∙◌, ◌&&◌, List, [], ◌∷◌, ◌++◌, some, Text, arith, map, ◌==◌,
  eq_some, eq_some→eq, All, eq_text, eq_text_refl, Bool-cases,
}
use configdeck.Requests.Apply.Commit.{apply_request_row, apply_requests, applied_row}
use configdeck.Requests.Apply.{PreparedApply}
use configdeck.Requests.Apply.Persist.{persist_apply_item, persist_all, version_row}
use configdeck.Requests.Lifecycle.Updates.{update_status-eq-ok}
use configdeck.Requests.Rows.{RequestRow, WorkflowRequestRow, Db, applied, ready_to_apply, is_ready}
use configdeck.Requests.Schema.{update_status}
use configdeck.Requests.Workflow.{insert_request_audit}
use mathlib.Core.List.{append-nil, append_assoc}

-- The part of the database that writing variables leaves alone, and the history that grew.
pub record IsWritten (ws : List PreparedApply) (db db' : Db) : Type 0 where
  pub requests : db'.requests ≡ db.requests
  pub items : db'.items ≡ db.items
  pub services : db'.services ≡ db.services
  pub audit : db'.audit ≡ db.audit
  pub versions : db'.versions ≡ db.versions ++ map version_row ws

persist_apply_item-IsWritten :
    (e : Text) (w : PreparedApply) (db : Db) {db' : Db}
    → persist_apply_item e w db ≡ ok db'
    → IsWritten (w ∷ []) db db'
unfolding persist_apply_item
persist_apply_item-IsWritten e w db h = ground arith

pub persist_all-IsWritten :
    (e : Text) (ws : List PreparedApply) (db : Db) {db' : Db}
    → persist_all e ws db ≡ ok db'
    → IsWritten ws db db'
unfolding persist_all
persist_all-IsWritten e [] db {db'} h =
    let same : db ≡ db' = cc in
    record {
      requests = ap (λ d. d.requests) (sym same);
      items = ap (λ d. d.items) (sym same);
      services = ap (λ d. d.services) (sym same);
      audit = ap (λ d. d.audit) (sym same);
      versions = ap (λ d. d.versions) (sym same) ∙ sym (append-nil db.versions);
    }
persist_all-IsWritten e (w ∷ ws) db h =
    let (mid, p, q) = >>=-eq-ok (persist_apply_item e w db) (persist_all e ws) h in
    let a = persist_apply_item-IsWritten e w db p in
    let b = persist_all-IsWritten e ws mid q in
    record {
      requests = b.requests ∙ a.requests;
      items = b.items ∙ a.items;
      services = b.services ∙ a.services;
      audit = b.audit ∙ a.audit;
      versions =
          b.versions
          ∙ ap (λ l. l ++ map version_row ws) a.versions
          ∙ append_assoc db.versions (version_row w ∷ []) (map version_row ws);
    }

-- The request is there, and applied.
abbrev pub IsApplied : Db → Text → Type 0
IsApplied db id = (row : RequestRow) × (db.requests id ≡ some row) × (row.status ≡ applied)

module _ (session : AuthenticatedSession) (expected now : Text) where
  -- What one round of the last loop finds and writes.
  pub record Round (r : WorkflowRequestRow) (db db' : Db) : Type 0 where
    pub row : RequestRow
    pub found : db.requests r.id ≡ some row
    pub ready : row.status ≡ ready_to_apply
    pub previewed : row.preview_fingerprint ≡ some expected
    pub revision : row.revision ≡ r.revision
    pub requests : db'.requests ≡ put db.requests r.id (applied_row session now row)
    pub versions : db'.versions ≡ db.versions
    pub variables : db'.variables ≡ db.variables

  pub apply_request_row-Round :
      (r : WorkflowRequestRow) (db : Db) {db' : Db}
      → apply_request_row session expected now r db ≡ ok db'
      → Round r db db'
  unfolding apply_request_row insert_request_audit
  apply_request_row-Round r db {db'} h =
      let test = λ (q : RequestRow).
        q.revision == r.revision && is_ready q.status && eq_some q.preview_fingerprint expected in
      let (row, chosen, rest) = >>=-eq-ok (ok_or conflict (row_where db.requests r.id test)) _ h in
      let (found, passes) =
        row_where-eq-some db.requests r.id test
          (ok_or-eq-ok conflict (row_where db.requests r.id test) chosen) in
      let after = applied_row session now row in
      let (written, u, last) = >>=-eq-ok (update_status r.id db row after) _ rest in
      let (_, _, _, stored) = update_status-eq-ok r.id db row after u in
      record {
        row = row;
        found = found;
        ready = ground arith;
        previewed = eq_some→eq row.preview_fingerprint expected (ground arith);
        revision = ground arith;
        requests = cc;
        versions = cc;
        variables = cc;
      }

  apply_request_row-IsApplied :
      (r : WorkflowRequestRow) (db : Db) {db' : Db} (id : Text)
      → Round r db db'
      → IsApplied db id
      → IsApplied db' id
  apply_request_row-IsApplied r db {db'} id round a = elim (Bool-cases (eq_text r.id id)) [
    | inl e ↦ (applied_row session now round.row, ap (λ t. t id) round.requests ∙ rw e, refl)
    | inr e ↦ (a.0, ap (λ t. t id) round.requests ∙ rw e a.1, a.2)
  ]

  all_keep :
      (rs : List WorkflowRequestRow) (db : Db) {db' : Db} (id : Text)
      → apply_requests session expected now rs db ≡ ok db'
      → IsApplied db id
      → IsApplied db' id
  unfolding apply_requests
  all_keep [] db id h a = ground (arith, a.1, a.2)
  all_keep (r ∷ rs) db id h a =
      let (mid, p, q) = >>=-eq-ok (apply_request_row session expected now r db) _ h in
      all_keep rs mid id q (apply_request_row-IsApplied r db id (apply_request_row-Round r db p) a)

  -- After the loop every request of the selection is applied, and the variables and their history
  -- are those before it.
  pub apply_requests-IsApplied :
      (rs : List WorkflowRequestRow) (db : Db) {db' : Db}
      → apply_requests session expected now rs db ≡ ok db'
      → All (λ r. IsApplied db' r.id) rs
        × (db'.versions ≡ db.versions)
        × (db'.variables ≡ db.variables)
  unfolding apply_requests
  apply_requests-IsApplied [] db h = (tt, cc, cc)
  apply_requests-IsApplied (r ∷ rs) db {db'} h =
      let (mid, p, q) = >>=-eq-ok (apply_request_row session expected now r db) _ h in
      let round = apply_request_row-Round r db p in
      let (later, v, u) = apply_requests-IsApplied rs mid q in
      let here : IsApplied mid r.id = (
        applied_row session now round.row,
        ap (λ t. t r.id) round.requests ∙ rw (eq_text_refl r.id),
        refl,
      ) in
      ((all_keep rs mid r.id q here, later), v ∙ round.versions, u ∙ round.variables)
