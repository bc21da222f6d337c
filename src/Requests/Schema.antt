-- ===== src/Requests/Schema.antt =====
-- What migrations/0001_initial.sql demands of a row of change_requests: its CHECKs, and the two
-- triggers on updates of its status. A statement that breaks one fails, and with it the
-- transaction, so that the program answers with `AppError::Database`.
use configdeck.Errors.{Result, ok, database, require, ◌>>◌}
use configdeck.Prelude.Tables.{put}
use configdeck.Prelude.{
  ◌^◌, Bool, true, false, not, ◌&&◌, ◌||◌, List, Text, ltb, leb, is_empty, is_some,
}
use configdeck.Requests.Rows.{
  Status, applied, rejected, RequestRow, ItemRow, Db, is_ready, has_missing, items_of,
}

-- the CHECK on status and the times of a decision
status_check : Status → RequestRow → Bool
status_check rejected r =
    is_some r.rejected_at && is_some r.rejection_reason && not (is_some r.applied_at)
status_check applied r =
    is_some r.applied_at && is_some r.approved_at && not (is_some r.rejected_at)
status_check _ r = not (is_some r.applied_at) && not (is_some r.rejected_at)

abbrev same : Bool → Bool → Bool
same true b = b
same false b = not b

unfoldable pub is_consistent : RequestRow → Bool
unfolding status_check
is_consistent r =
    leb 1 r.revision
    && ltb r.revision (2 ^ 63)
    && same (is_some r.approved_by) (is_some r.approved_at)
    && same (is_some r.rejected_by) (is_some r.rejected_at)
    && same (is_some r.applied_by) (is_some r.applied_at)
    && status_check r.status r
    && (not (is_ready r.status) || is_some r.approved_at)

-- change_requests_validate_ready, over the items of the request
unfoldable pub ready_trigger : List ItemRow → RequestRow → Bool
ready_trigger items r =
    not (is_ready r.status)
    || is_some r.approved_at && not (is_empty items) && not (has_missing items)

abbrev is_applied : Status → Bool
is_applied applied = true
is_applied _ = false

-- change_requests_validate_apply_transition
unfoldable pub apply_trigger : RequestRow → RequestRow → Bool
apply_trigger before after = not (is_applied after.status) || is_ready before.status

-- An `UPDATE` of the request `id` that names the column status.
unfoldable pub update_status : Text → Db → RequestRow → RequestRow → Result Db
update_status id db before after = do
  require (ready_trigger (items_of db id) after) database
  require (apply_trigger before after) database
  require (is_consistent after) database
  ok (record db { requests = put db.requests id after })

-- An `UPDATE` of the request `id` that leaves its status and its approval alone.
unfoldable pub update_request : Text → Db → RequestRow → Result Db
update_request id db after = do
  require (is_consistent after) database
  ok (record db { requests = put db.requests id after })
