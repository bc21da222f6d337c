-- ===== src/Requests/Lifecycle/Approval.antt =====
-- `approve`: exactly when it succeeds, and with what result.
use configdeck.Auth.Session.{AuthenticatedSession, full}
use configdeck.Errors.{ok, Result-cases}
use configdeck.Prelude.Tables.{put}
use configdeck.Prelude.{
  ◌+◌, ◌^◌, ◌<◌, ◌≡◌, ap, ◌∙◌, ◌↔◌, inl, inr, sym, true, none, some, Text, arith, eq_text_iff,
}
use configdeck.Requests.Lifecycle.Updates.{IsSound, update_status-eq-ok, update_status-ok}
use configdeck.Requests.Rows.{
  RequestRow, Db, ServiceRow, items_of, is_pending, has_missing, approve_request,
}
use configdeck.Requests.Schema.{is_consistent, ready_trigger, apply_trigger, update_status}
use configdeck.Requests.Workflow.{approve, approved_row, insert_request_audit}
use configdeck.Users.{allows, review_request}

-- The reviewer may decide on the request `r`, which is there and of the reviewer's organization.
pub record MayDecide (session : AuthenticatedSession) (id : Text) (r : RequestRow) (db : Db)
    : Type 0 where
  pub full_session : session.authentication_state ≡ full
  pub reviewer : allows session.user.role review_request ≡ true
  pub there : db.requests id ≡ some r
  pub service : ServiceRow
  pub service_there : db.services r.service_id ≡ some service
  pub same_organization : service.organization_id ≡ session.user.organization_id

-- The database after an approval.
abbrev pub approved : AuthenticatedSession → Text → Text → RequestRow → Db → Db
approved session id now r db = insert_request_audit session id approve_request now (record db {
  requests = put db.requests id (approved_row session now (has_missing (items_of db id)) r);
})

module _ (session : AuthenticatedSession) (id now : Text) (db : Db) where
  approved_ready :
      (r : RequestRow)
      → IsSound db
      → MayDecide session id r db
      → ready_trigger (items_of db id) (approved_row session now (has_missing (items_of db id)) r)
        ≡ true
  unfolding ready_trigger
  approved_ready r sound may = ground (arith, sound.filled id r may.there)

  approved_consistent :
      (r : RequestRow)
      → IsSound db
      → MayDecide session id r db
      → is_pending r.status ≡ true
      → r.revision + 1 < 2 ^ 63
      → is_consistent (approved_row session now (has_missing (items_of db id)) r) ≡ true
  unfolding is_consistent
  approved_consistent r sound may pending small = ground (arith, sound.consistent id r may.there)

  approve_succeeds :
      (r : RequestRow)
      → IsSound db
      → MayDecide session id r db
      → is_pending r.status ≡ true
      → r.approved_at ≡ none
      → r.revision + 1 < 2 ^ 63
      → approve session id now db ≡ ok (approved session id now r db)
  unfolding approve apply_trigger
  approve_succeeds r sound may pending unapproved small =
      let written =
        update_status-ok id db r (approved_row session now (has_missing (items_of db id)) r)
          (approved_ready r sound may) (ground arith)
          (approved_consistent r sound may pending small) in
      ground (arith, eq_text_iff may.service.organization_id session.user.organization_id, written)

  approve_finds :
      {db' : Db}
      → approve session id now db ≡ ok db'
      → (r : RequestRow) × (s : ServiceRow) × (db.requests id ≡ some r)
        × (db.services r.service_id ≡ some s)
  unfolding approve
  approve_finds h = ground arith

  pub approve_writes :
      (r : RequestRow) {db' : Db}
      → db.requests id ≡ some r
      → approve session id now db ≡ ok db'
      → (written : Db) × (update_status id db r
            (approved_row session now (has_missing (items_of db id)) r)
          ≡ ok written)
        × (db' ≡ insert_request_audit session id approve_request now written)
  unfolding approve
  approve_writes r p h =
      elim (Result-cases
        (update_status id db r (approved_row session now (has_missing (items_of db id)) r))) [
          | inl (written, u) ↦ (written, u, ground arith)
          | inr (e, u) ↦ absurd (ground arith)
        ]

  pub approve_needs :
      {db' : Db}
      → approve session id now db ≡ ok db'
      → (r : RequestRow) × MayDecide session id r db
        × (is_pending r.status ≡ true)
        × (r.approved_at ≡ none)
        × (db' ≡ approved session id now r db)
  unfolding approve
  approve_needs h =
      let (r, s, p, q) = approve_finds h in
      let (written, u, e) = approve_writes r p h in
      let (_, _, _, stored) = update_status-eq-ok id db r _ u in
      (
        r,
        record {
          full_session = ground arith;
          reviewer = ground arith;
          there = p;
          service = s;
          service_there = q;
          same_organization =
              ground (arith, eq_text_iff s.organization_id session.user.organization_id);
        },
        ground arith,
        ground arith,
        e ∙ ap (insert_request_audit session id approve_request now) stored,
      )

  -- A reviewer of the request's organization, in a full session, approves a pending request that
  -- has no approval yet, and nobody else approves anything. The request then waits for values
  -- exactly if one is missing, its revision grows by one, its preview is void, one line is added
  -- to the audit log, and nothing else changes. The database's own checks never stop an approval.
  pub approve_iff :
      (db' : Db)
      → IsSound db
      → ((r : RequestRow) → db.requests id ≡ some r → r.revision + 1 < 2 ^ 63)
      → (approve session id now db ≡ ok db') ↔ (
          (r : RequestRow) × MayDecide session id r db
          × (is_pending r.status ≡ true)
          × (r.approved_at ≡ none)
          × (db' ≡ approved session id now r db))
  approve_iff db' sound small = (
    approve_needs,
    λ (r, may, pending, unapproved, e).
        approve_succeeds r sound may pending unapproved (small r may.there) ∙ ap ok (sym e),
  )
