-- ===== src/Catalog/Archived.antt =====
-- Archiving an environment leaves its service another one.
use configdeck.Auth.Session.{AuthenticatedSession}
use configdeck.Catalog.Environments.{
  set_archived, service_of, may_archive, is_active_in, has_id, archived_environment,
}
use configdeck.Catalog.Stays.{HasActive, IsDistinct, found-IsOnly, count-split, count-id, count-any}
use configdeck.Catalog.{EnvironmentRow, Db, is_service, insert_audit, require_manage_metadata}
use configdeck.Errors.{ok, >>=-eq-ok, >>-eq-ok, ok_or, ok_or-eq-ok, not_found, database}
use configdeck.Prelude.{
  ◌≤◌, ◌≡◌, Bool, true, false, not, ◌&&◌, List, Text, eq_text, eq_text_iff, arith, if◌then◌else◌,
  any, find, update_where, All, All-map, All-zip, any-update_where, any-update_where_within,
  count_where, is_some,
}

service_of-eq-ok :
    (session : AuthenticatedSession) (environment_id service_id : Text) (db : Db)
    → IsDistinct db.environments
    → service_of session environment_id db ≡ ok service_id
    → All (λ y. y.id ≡ environment_id → y.service_id ≡ service_id) db.environments
unfolding service_of
service_of-eq-ok session environment_id service_id db d h =
    let test = λ (e : EnvironmentRow).
      eq_text e.id environment_id
      && any (is_service e.service_id session.user.organization_id) db.services in
    let (e, p, q) = >>=-eq-ok (ok_or not_found (find test db.environments)) _ h in
    let found = ok_or-eq-ok not_found (find test db.environments) p in
    let service : e.service_id ≡ service_id = cc in
    let only =
      found-IsOnly test environment_id db.environments
        (λ x t. ground (arith, eq_text_iff x.id environment_id)) d found in
    All-map (λ y. y.id ≡ environment_id → y ≡ e)
      (λ y. y.id ≡ environment_id → y.service_id ≡ service_id) (λ y o i. rw (o i) service)
      db.environments only

may_archive-count :
    (service_id environment_id : Text) (db : Db)
    → may_archive service_id environment_id db ≡ ok tt
    → 2 ≤ count_where (is_active_in service_id) db.environments
unfolding may_archive
may_archive-count service_id environment_id db h = ground arith

-- The environment is one of two at least, so that another stays.
another :
    (service_id environment_id : Text) (es : List EnvironmentRow)
    → IsDistinct es
    → 2 ≤ count_where (is_active_in service_id) es
    → any (λ y. is_active_in service_id y && not (has_id environment_id y)) es ≡ true
another service_id environment_id es d h =
    count-any (λ y. is_active_in service_id y && not (has_id environment_id y)) es
      (omega (
        arith,
        h,
        count-id environment_id es d,
        count-split (is_active_in service_id) (has_id environment_id) es,
      ))

-- What a successful call has found, and what it writes.
record IsArchived (session : AuthenticatedSession) (environment_id : Text) (archived : Bool)
    (now : Text) (db db' : Db) : Type 0 where
  pub service_id : Text
  pub home : All (λ y. y.id ≡ environment_id → y.service_id ≡ service_id) db.environments
  pub row : EnvironmentRow
  pub only : All (λ y. y.id ≡ environment_id → y ≡ row) db.environments
  pub allowed :
      (if archived && not (is_some row.archived_at)
        then may_archive service_id environment_id db
        else ok tt)
      ≡ ok tt
  pub written :
      db'.environments
      ≡ update_where
          (has_id environment_id)
          (archived_environment session archived now)
          db.environments

set_archived-IsArchived :
    (session : AuthenticatedSession) (environment_id : Text) (archived : Bool) (now : Text)
    (db : Db) {db' : Db}
    → IsDistinct db.environments
    → set_archived session environment_id archived now db ≡ ok db'
    → IsArchived session environment_id archived now db db'
unfolding set_archived insert_audit
set_archived-IsArchived session environment_id archived now db {db'} d h =
    let (a, h1) = >>-eq-ok (require_manage_metadata session) _ h in
    let (service_id, p, h2) = >>=-eq-ok (service_of session environment_id db) _ h1 in
    let (e, q, h3) =
      >>=-eq-ok (ok_or database (find (has_id environment_id) db.environments)) _ h2 in
    let (g, h4) =
      >>-eq-ok
        (if archived && not (is_some e.archived_at)
          then may_archive service_id environment_id db
          else ok tt)
        _ h3 in
    record {
      service_id = service_id;
      home = service_of-eq-ok session environment_id service_id db d p;
      row = e;
      only =
          found-IsOnly (has_id environment_id) environment_id db.environments
            (λ x t. ground (arith, eq_text_iff x.id environment_id)) d
            (ok_or-eq-ok database (find (has_id environment_id) db.environments) q);
      allowed = g;
      written = ground arith;
    }

pub set_archived-HasActive :
    (session : AuthenticatedSession) (environment_id : Text) (archived : Bool) (now s : Text)
    (db : Db) {db' : Db}
    → set_archived session environment_id archived now db ≡ ok db'
    → IsDistinct db.environments
    → HasActive s db
    → HasActive s db'
set_archived-HasActive session environment_id false now s db {db'} h d b =
    let w = set_archived-IsArchived session environment_id false now db {db' = db'} d h in
    rw w.written (
      any-update_where (is_active_in s) (has_id environment_id)
        (archived_environment session false now) (λ x p t. ground arith) db.environments b)
set_archived-HasActive session environment_id true now s db {db'} h d b =
    let w = set_archived-IsArchived session environment_id true now db {db' = db'} d h in
    let facts =
      All-zip (λ y. y.id ≡ environment_id → y.service_id ≡ w.service_id)
        (λ y. y.id ≡ environment_id → y ≡ w.row) db.environments w.home w.only in
    rw w.written (
      any-update_where_within
        (λ y.
          (y.id ≡ environment_id → y.service_id ≡ w.service_id)
          × (y.id ≡ environment_id → y ≡ w.row))
        (is_active_in s) (has_id environment_id) (archived_environment session true now)
        db.environments facts
        (λ x f p t.
          let i : x.id ≡ environment_id = ground (arith, eq_text_iff x.id environment_id) in
          let mine : s ≡ w.service_id = ground (arith, f.0 i, eq_text_iff x.service_id s) in
          let open_row : is_some w.row.archived_at ≡ false = rw (← f.1 i) (ground arith) in
          let two =
            may_archive-count w.service_id environment_id db
              (ground (arith, w.allowed, open_row)) in
          rw mine (another w.service_id environment_id db.environments d two))
        b)

pub set_archived-written :
    (session : AuthenticatedSession) (environment_id : Text) (archived : Bool) (now : Text)
    (db : Db) {db' : Db}
    → IsDistinct db.environments
    → set_archived session environment_id archived now db ≡ ok db'
    → db'.environments
      ≡ update_where
          (has_id environment_id)
          (archived_environment session archived now)
          db.environments
set_archived-written session environment_id archived now db {db'} d h =
    let w = set_archived-IsArchived session environment_id archived now db {db' = db'} d h in
    w.written
