-- ===== src/Requests/Lifecycle/Updates.antt =====
-- The conditions under which an `UPDATE` of a request goes through.
use configdeck.Errors.{ok}
use configdeck.Prelude.Tables.{put}
use configdeck.Prelude.{◌≡◌, true, false, some, Text, arith, is_empty}
use configdeck.Requests.Rows.{RequestRow, Db, items_of}
use configdeck.Requests.Schema.{
  is_consistent, ready_trigger, apply_trigger, update_status, update_request,
}

pub update_status-eq-ok :
    (id : Text) (db : Db) (before after : RequestRow) {db' : Db}
    → update_status id db before after ≡ ok db'
    → (ready_trigger (items_of db id) after ≡ true)
      × (apply_trigger before after ≡ true)
      × (is_consistent after ≡ true)
      × (db' ≡ record db { requests = put db.requests id after })
unfolding update_status
update_status-eq-ok id db before after h = ground arith

pub update_status-ok :
    (id : Text) (db : Db) (before after : RequestRow)
    → ready_trigger (items_of db id) after ≡ true
    → apply_trigger before after ≡ true
    → is_consistent after ≡ true
    → update_status id db before after ≡ ok (record db { requests = put db.requests id after })
unfolding update_status
update_status-ok id db before after p q r = ground arith

pub update_request-eq-ok :
    (id : Text) (db : Db) (after : RequestRow) {db' : Db}
    → update_request id db after ≡ ok db'
    → (is_consistent after ≡ true) × (db' ≡ record db { requests = put db.requests id after })
unfolding update_request
update_request-eq-ok id db after h = ground arith

-- Each request satisfies the CHECKs, has items, and has all their values if it is ready.
pub record IsSound (db : Db) : Type 0 where
  pub consistent : (id : Text) (r : RequestRow) → db.requests id ≡ some r → is_consistent r ≡ true
  pub ready :
      (id : Text) (r : RequestRow)
      → db.requests id ≡ some r
      → ready_trigger (items_of db id) r ≡ true
  pub filled :
      (id : Text) (r : RequestRow) → db.requests id ≡ some r → is_empty (items_of db id) ≡ false
