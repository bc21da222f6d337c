-- ===== src/Tests/Decisions.antt =====
-- Decisions on the pending request, and a history of two of them.
use configdeck.Errors.{ok, err, conflict}
use configdeck.Prelude.Space.{is_whitespace, trim_start, trim_end, trim}
use configdeck.Prelude.{◌≡◌, ◌↔◌, refl, true, false, none, codes, Text, eq_text}
use configdeck.Requests.History.Final.{Reach-Keeps}
use configdeck.Requests.History.Keeps.{Keeps}
use configdeck.Requests.History.{here, next, approving, rejecting}
use configdeck.Requests.Lifecycle.Approval.{MayDecide, approved, approve_iff}
use configdeck.Requests.Lifecycle.Rejection.{turned_down, reject_iff}
use configdeck.Requests.Rows.{RequestRow, Db, is_pending, is_open}
use configdeck.Requests.Schema.{is_consistent, ready_trigger, apply_trigger, update_status}
use configdeck.Requests.Workflow.{approve, approved_row, reject, insert_request_audit}
use configdeck.Tests.Rows.{
  now, a_request, pending, pending-IsSound, pending_small, pending_consistent,
}
use configdeck.Tests.Sessions.{an_operator}
use configdeck.Variables.Validate.{validate_reason}

abbrev ready_db : Db
ready_db = approved an_operator (codes "r") now a_request pending

approve_iff_example : (approve an_operator (codes "r") now pending ≡ ok ready_db) ↔ (
    (r : RequestRow) × MayDecide an_operator (codes "r") r pending
    × (is_pending r.status ≡ true)
    × (r.approved_at ≡ none)
    × (ready_db ≡ approved an_operator (codes "r") now r pending))
approve_iff_example =
    approve_iff an_operator (codes "r") now pending ready_db pending-IsSound pending_small

run_approve : approve an_operator (codes "r") now pending ≡ ok ready_db
unfolding eq_text approve update_status ready_trigger apply_trigger is_consistent
run_approve = refl

run_approve_again : approve an_operator (codes "r") now ready_db ≡ err conflict
unfolding eq_text approve update_status ready_trigger apply_trigger is_consistent
    insert_request_audit
run_approve_again = refl

abbrev rejected_db : Db
rejected_db =
    turned_down an_operator (codes "r") now ready_db (codes "no")
      (approved_row an_operator now false a_request)

abbrev rejected_pending : Db
rejected_pending = turned_down an_operator (codes "r") now pending (codes "no") a_request

run_reject : reject an_operator (codes "r") (codes " no ") now ready_db ≡ ok rejected_db
unfolding eq_text is_whitespace reject update_status ready_trigger apply_trigger is_consistent
    insert_request_audit validate_reason trim trim_start trim_end
run_reject = refl

reject_iff_example :
    (reject an_operator (codes "r") (codes " no ") now pending ≡ ok rejected_pending) ↔ (
      (reason : Text) × (r : RequestRow) × (validate_reason (codes " no ") ≡ ok reason)
      × MayDecide an_operator (codes "r") r pending
      × (is_open r.status ≡ true)
      × (rejected_pending ≡ turned_down an_operator (codes "r") now pending reason r))
reject_iff_example =
    reject_iff an_operator (codes "r") now pending (codes " no ") rejected_pending pending-IsSound
      pending_small

Reach-Keeps_example : Keeps pending.requests rejected_db.requests
Reach-Keeps_example =
    Reach-Keeps
      (next (next here (approving an_operator (codes "r") now run_approve))
        (rejecting an_operator (codes "r") (codes " no ") now run_reject))
      pending_consistent
