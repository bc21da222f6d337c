-- ===== src/Requests/History/Final.antt =====
-- What holds of a request through every sequence of transactions.
use configdeck.Auth.Session.{AuthenticatedSession}
use configdeck.Errors.{ok, require, ok_or, >>=-eq-ok, >>-eq-ok, ok_or-eq-ok, conflict, database}
use configdeck.Prelude.Tables.{put, row_where, row_where-eq-some}
use configdeck.Prelude.{
  ◌+◌, ◌≡◌, refl, sym, Bool, true, none, some, List, [], ◌∷◌, Text, arith, ◌==◌, ◌&&◌, find,
  update_where, eq_some, is_some,
}
use configdeck.Requests.Apply.Commit.{
  preview_requests, preview_request_row, apply_requests, apply_request_row, applied_row,
}
use configdeck.Requests.Apply.Effects.{persist_all-IsWritten}
use configdeck.Requests.Apply.Outcome.{apply_commit_writes}
use configdeck.Requests.History.Keeps.{
  Keeps, Keeps-put, Keeps-trans, Keeps-refl, Keeps-update_status,
}
use configdeck.Requests.History.Rounds.{Follows-preview, IsConsistent}
use configdeck.Requests.History.{
  Step, approving, rejecting, fulfilling, previewing, applying, Reach, here, next,
}
use configdeck.Requests.Rows.{
  RequestRow, WorkflowRequestRow, Db, is_open, is_ready, items_of, has_missing,
}
use configdeck.Requests.Lifecycle.Approval.{approve_needs, approve_writes}
use configdeck.Requests.Lifecycle.Rejection.{reject_needs, reject_writes}
use mathlib.Core.Path.{subst}
use configdeck.Requests.Schema.{is_consistent, update_status, update_request}
use configdeck.Requests.Lifecycle.Updates.{update_status-eq-ok, update_request-eq-ok}
use configdeck.Requests.Workflow.{
  approve, reject, fulfill_store, FulfillRow, SealedValue, insert_request_audit, fulfilled_status,
  is_target, filled_item,
}

Keeps-approve :
    (s : AuthenticatedSession) (id now : Text) (db : Db) {db' : Db}
    → IsConsistent db.requests
    → approve s id now db ≡ ok db'
    → Keeps db.requests db'.requests
unfolding insert_request_audit
Keeps-approve s id now db c h =
    let (r, may, pending, _, e) = approve_needs s id now db h in
    let (written, u, last) = approve_writes s id now db r may.there h in
    rw last (Keeps-update_status id db r _ c may.there refl (ground (arith, pending)) u)

Keeps-reject :
    (s : AuthenticatedSession) (id typed now : Text) (db : Db) {db' : Db}
    → IsConsistent db.requests
    → reject s id typed now db ≡ ok db'
    → Keeps db.requests db'.requests
unfolding insert_request_audit
Keeps-reject s id typed now db c h =
    let (reason, r, valid, may, undecided, e) = reject_needs s id now db typed h in
    let (written, u, last) = reject_writes s id now db typed h reason r valid may.there in
    rw last (Keeps-update_status id db r _ c may.there refl undecided u)

-- A row that satisfies the CHECKs with an open status had an open status before, if only the
-- status, the revision and the preview changed.
open_before :
    (r : RequestRow) (missing : Bool)
    → is_consistent r ≡ true
    → is_consistent (record r {
      status = fulfilled_status missing (is_some r.approved_at);
      revision = r.revision + 1;
      preview_fingerprint = none;
    })
      ≡ true
    → is_open r.status ≡ true
unfolding is_consistent
open_before r missing h k = ground arith

Keeps-fulfill_store :
    (s : AuthenticatedSession) (f : FulfillRow) (v : SealedValue) (now : Text) (db : Db) {db' : Db}
    → IsConsistent db.requests
    → fulfill_store s f v now db ≡ ok db'
    → Keeps db.requests db'.requests
unfolding fulfill_store insert_request_audit
Keeps-fulfill_store s f v now db {db'} c h =
    let id = f.request.id in
    let target = is_target f.item.id f.item.item_revision in
    let filled = record db {
      items = update_where target (filled_item v now (f.item.item_revision + 1)) db.items;
    } in
    let (_, h1) = >>-eq-ok (require (is_some (find target db.items)) conflict) _ h in
    let (row, there, h2) = >>=-eq-ok (ok_or database (db.requests id)) _ h1 in
    let p = ok_or-eq-ok database (db.requests id) there in
    let missing = has_missing (items_of filled id) in
    let after = record row {
      status = fulfilled_status missing (is_some row.approved_at);
      revision = row.revision + 1;
      preview_fingerprint = none;
    } in
    let (written, u, last) = >>=-eq-ok (update_status id filled row after) _ h2 in
    let (_, _, k, _) = update_status-eq-ok id filled row after u in
    let undecided = open_before row missing (c id row p) k in
    let done : db'.requests ≡ written.requests = cc in
    rw done (Keeps-update_status id filled row after c p refl undecided u)

Keeps-preview_request_row :
    (s : AuthenticatedSession) (fp now : Text) (q : WorkflowRequestRow) (db : Db) {db' : Db}
    → IsConsistent db.requests
    → preview_request_row s fp now q db ≡ ok db'
    → Keeps db.requests db'.requests
unfolding preview_request_row insert_request_audit update_request
Keeps-preview_request_row s fp now q db {db'} c h =
    let test = λ (r : RequestRow). r.revision == q.revision && is_ready r.status in
    let (row, chosen, rest) = >>=-eq-ok (ok_or conflict (row_where db.requests q.id test)) _ h in
    let (found, passes) =
      row_where-eq-some db.requests q.id test
        (ok_or-eq-ok conflict (row_where db.requests q.id test) chosen) in
    let after = record row { preview_fingerprint = some fp } in
    let (written, u, last) = >>=-eq-ok (update_request q.id db after) _ rest in
    let (k, stored) = update_request-eq-ok q.id db after u in
    let done : db'.requests ≡ put db.requests q.id after = cc in
    rw done (Keeps-put db.requests q.id row after c found k (Follows-preview row fp (ground arith)))

Keeps-preview_requests :
    (s : AuthenticatedSession) (fp now : Text) (qs : List WorkflowRequestRow) (db : Db) {db' : Db}
    → IsConsistent db.requests
    → preview_requests s fp now qs db ≡ ok db'
    → Keeps db.requests db'.requests
unfolding preview_requests
Keeps-preview_requests s fp now [] db {db'} c h =
    let same : db'.requests ≡ db.requests = cc in rw same (Keeps-refl db.requests c)
Keeps-preview_requests s fp now (q ∷ qs) db {db'} c h =
    let (mid, p, rest) = >>=-eq-ok (preview_request_row s fp now q db) _ h in
    let a = Keeps-preview_request_row s fp now q db c p in
    Keeps-trans db.requests mid.requests db'.requests a
      (Keeps-preview_requests s fp now qs mid a.consistent rest)

Keeps-apply_request_row :
    (s : AuthenticatedSession) (e now : Text) (q : WorkflowRequestRow) (db : Db) {db' : Db}
    → IsConsistent db.requests
    → apply_request_row s e now q db ≡ ok db'
    → Keeps db.requests db'.requests
unfolding apply_request_row insert_request_audit
Keeps-apply_request_row s e now q db {db'} c h =
    let test = λ (r : RequestRow).
      r.revision == q.revision && is_ready r.status && eq_some r.preview_fingerprint e in
    let (row, chosen, rest) = >>=-eq-ok (ok_or conflict (row_where db.requests q.id test)) _ h in
    let (found, passes) =
      row_where-eq-some db.requests q.id test
        (ok_or-eq-ok conflict (row_where db.requests q.id test) chosen) in
    let (written, u, last) = >>=-eq-ok (update_status q.id db row (applied_row s now row)) _ rest in
    let done : db'.requests ≡ written.requests = cc in
    rw done (Keeps-update_status q.id db row _ c found refl (ground arith) u)

Keeps-apply_requests :
    (s : AuthenticatedSession) (e now : Text) (qs : List WorkflowRequestRow) (db : Db) {db' : Db}
    → IsConsistent db.requests
    → apply_requests s e now qs db ≡ ok db'
    → Keeps db.requests db'.requests
unfolding apply_requests
Keeps-apply_requests s e now [] db {db'} c h =
    let same : db'.requests ≡ db.requests = cc in rw same (Keeps-refl db.requests c)
Keeps-apply_requests s e now (q ∷ qs) db {db'} c h =
    let (mid, p, rest) = >>=-eq-ok (apply_request_row s e now q db) _ h in
    let a = Keeps-apply_request_row s e now q db c p in
    Keeps-trans db.requests mid.requests db'.requests a
      (Keeps-apply_requests s e now qs mid a.consistent rest)

Keeps-Step : {db db' : Db} → Step db db' → IsConsistent db.requests → Keeps db.requests db'.requests
Keeps-Step {db} (approving s id now h) c = Keeps-approve s id now db c h
Keeps-Step {db} (rejecting s id reason now h) c = Keeps-reject s id reason now db c h
Keeps-Step {db} (fulfilling s f v now h) c = Keeps-fulfill_store s f v now db c h
Keeps-Step {db} (previewing s fp now qs h) c = Keeps-preview_requests s fp now qs db c h
Keeps-Step {db} {db'} (applying k s p now h) c =
    let (requests, written, w, last) = apply_commit_writes k s now p db h in
    let same = (persist_all-IsWritten p.environment_id p.writes db w).requests in
    let c' : IsConsistent written.requests = subst IsConsistent (sym same) c in
    subst (λ t. Keeps t db'.requests) same
      (Keeps-apply_requests s p.expected_fingerprint now requests written c' last)

-- Through every sequence of transactions of the workflow, by anybody and on whatever they read
-- before, each request stays and satisfies the CHECKs; its revision never falls; while its
-- revision stays, only its preview changes; and once applied or rejected it never changes.
pub Reach-Keeps :
    {db last : Db} → Reach db last → IsConsistent db.requests → Keeps db.requests last.requests
Reach-Keeps {db} here c = Keeps-refl db.requests c
Reach-Keeps {db} {last} (next {mid} r st) c =
    let a = Reach-Keeps r c in
    Keeps-trans db.requests mid.requests last.requests a (Keeps-Step st a.consistent)
