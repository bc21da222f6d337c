-- ===== src/Requests/History/Keeps.antt =====
-- What a transaction does to the table change_requests.

use configdeck.Errors.{ok}
use configdeck.Prelude.Tables.{put, Table}
use configdeck.Prelude.{◌+◌, ◌≡◌, true, some, Text}
use configdeck.Requests.History.Rounds.{
  Follows, Follows-refl, Follows-trans, Follows-next, Kept, Kept-put, IsConsistent,
  IsConsistent-put,
}
use configdeck.Requests.Rows.{RequestRow, Db, is_open}
use configdeck.Requests.Schema.{is_consistent, update_status}
use configdeck.Requests.Lifecycle.Updates.{update_status-eq-ok}

-- Each request stays, in a row that follows the one before, and each row satisfies the CHECKs.
pub record Keeps (before after : Table RequestRow) : Type 0 where
  pub consistent : IsConsistent after
  pub kept : (id : Text) (r : RequestRow) → before id ≡ some r → Kept id r after

pub Keeps-put :
    (rows : Table RequestRow) (j : Text) (b after : RequestRow)
    → IsConsistent rows
    → rows j ≡ some b
    → is_consistent after ≡ true
    → Follows b after
    → Keeps rows (put rows j after)
Keeps-put rows j b after c p k f = record {
  consistent = IsConsistent-put rows j after k c;
  kept = λ id r q. Kept-put rows j id r b after p q f;
}

pub Keeps-trans : (a b c : Table RequestRow) → Keeps a b → Keeps b c → Keeps a c
Keeps-trans a b c f g = record {
  consistent = g.consistent;
  kept = λ id r q.
      let (r', q', x) = f.kept id r q in
      let (r'', q'', y) = g.kept id r' q' in (r'', q'', Follows-trans r r' r'' x y);
}

pub Keeps-refl : (a : Table RequestRow) → IsConsistent a → Keeps a a
Keeps-refl a c = record { consistent = c; kept = λ id r q. (r, q, Follows-refl r) }

-- An update of the status over a row that is still open.
pub Keeps-update_status :
    (id : Text) (db : Db) (b after : RequestRow) {db' : Db}
    → IsConsistent db.requests
    → db.requests id ≡ some b
    → after.revision ≡ b.revision + 1
    → is_open b.status ≡ true
    → update_status id db b after ≡ ok db'
    → Keeps db.requests db'.requests
Keeps-update_status id db b after {db'} c p e o u =
    let (_, _, k, stored) = update_status-eq-ok id db b after u in
    rw stored (Keeps-put db.requests id b after c p k (Follows-next b after e o))
