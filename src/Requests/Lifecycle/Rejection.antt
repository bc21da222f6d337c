-- ===== src/Requests/Lifecycle/Rejection.antt =====
-- `reject`: exactly when it succeeds, and with what result.
use configdeck.Auth.Session.{AuthenticatedSession}
use configdeck.Errors.{ok, Result-cases}
use configdeck.Prelude.Tables.{put}
use configdeck.Prelude.{
  ◌+◌, ◌^◌, ◌<◌, ◌≡◌, ap, ◌∙◌, ◌↔◌, refl, sym, inl, inr, true, some, Text, arith, eq_text_iff,
}
use configdeck.Requests.Lifecycle.Approval.{MayDecide}
use configdeck.Requests.Lifecycle.Updates.{IsSound, update_status-eq-ok, update_status-ok}
use configdeck.Requests.Rows.{RequestRow, Db, ServiceRow, is_open, reject_request, eq_status_refl}
use configdeck.Requests.Schema.{is_consistent, ready_trigger, apply_trigger, update_status}
use configdeck.Requests.Workflow.{reject, rejected_row, insert_request_audit}
use configdeck.Variables.Validate.{validate_reason}

module _ (session : AuthenticatedSession) (id now : Text) (db : Db) where
  -- The database after a rejection for a reason.
  abbrev pub turned_down : Text → RequestRow → Db
  turned_down reason r =
      insert_request_audit session id reject_request now
        (record db { requests = put db.requests id (rejected_row session reason now r) })

  rejected_consistent :
      (reason : Text) (r : RequestRow)
      → IsSound db
      → db.requests id ≡ some r
      → is_open r.status ≡ true
      → r.revision + 1 < 2 ^ 63
      → is_consistent (rejected_row session reason now r) ≡ true
  unfolding is_consistent
  rejected_consistent reason r sound there undecided small =
      ground (arith, sound.consistent id r there)

  reject_succeeds :
      (typed reason : Text) (r : RequestRow)
      → IsSound db
      → MayDecide session id r db
      → is_open r.status ≡ true
      → r.revision + 1 < 2 ^ 63
      → validate_reason typed ≡ ok reason
      → reject session id typed now db ≡ ok (turned_down reason r)
  unfolding reject apply_trigger ready_trigger
  reject_succeeds typed reason r sound may undecided small valid =
      let written =
        update_status-ok id db r (rejected_row session reason now r) refl refl
          (rejected_consistent reason r sound may.there undecided small) in
      ground (
        arith,
        eq_text_iff may.service.organization_id session.user.organization_id,
        written,
        eq_status_refl r.status,
      )

  module _ (typed : Text) {db' : Db} (h : reject session id typed now db ≡ ok db') where
    reject_finds :
        (reason : Text) × (r : RequestRow) × (s : ServiceRow) × (validate_reason typed ≡ ok reason)
        × (db.requests id ≡ some r)
        × (db.services r.service_id ≡ some s)
    unfolding reject
    reject_finds = ground arith

    pub reject_writes :
        (reason : Text) (r : RequestRow)
        → validate_reason typed ≡ ok reason
        → db.requests id ≡ some r
        → (written : Db) × (update_status id db r (rejected_row session reason now r) ≡ ok written)
          × (db' ≡ insert_request_audit session id reject_request now written)
    unfolding reject
    reject_writes reason r v p =
        elim (Result-cases (update_status id db r (rejected_row session reason now r))) [
          | inl (written, u) ↦ (written, u, ground (arith, eq_status_refl r.status))
          | inr (e, u) ↦ absurd (ground (arith, eq_status_refl r.status))
        ]

    pub reject_needs :
        (reason : Text) × (r : RequestRow) × (validate_reason typed ≡ ok reason)
        × MayDecide session id r db
        × (is_open r.status ≡ true)
        × (db' ≡ turned_down reason r)
    unfolding reject
    reject_needs =
        let (reason, r, s, v, p, q) = reject_finds in
        let (written, u, e) = reject_writes reason r v p in
        let (_, _, _, stored) = update_status-eq-ok id db r _ u in
        (
          reason,
          r,
          v,
          record {
            full_session = ground arith;
            reviewer = ground arith;
            there = p;
            service = s;
            service_there = q;
            same_organization =
                ground (arith, eq_text_iff s.organization_id session.user.organization_id);
          },
          ground arith,
          e ∙ ap (insert_request_audit session id reject_request now) stored,
        )

  -- A reviewer of the request's organization, in a full session and with a reason that is neither
  -- blank nor too long, rejects a request that is not decided finally, approved or not, and nobody
  -- else rejects anything. The request then is rejected with the trimmed reason, its revision grows
  -- by one, its preview is void, one line is added to the audit log, and nothing else changes.
  pub reject_iff :
      (typed : Text) (db' : Db)
      → IsSound db
      → ((r : RequestRow) → db.requests id ≡ some r → r.revision + 1 < 2 ^ 63)
      → (reject session id typed now db ≡ ok db') ↔ (
          (reason : Text) × (r : RequestRow) × (validate_reason typed ≡ ok reason)
          × MayDecide session id r db
          × (is_open r.status ≡ true)
          × (db' ≡ turned_down reason r))
  reject_iff typed db' sound small = (
    reject_needs typed,
    λ (reason, r, valid, may, undecided, e).
        reject_succeeds typed reason r sound may undecided (small r may.there) valid
        ∙ ap ok (sym e),
  )
