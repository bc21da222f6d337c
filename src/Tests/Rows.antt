-- ===== src/Tests/Rows.antt =====
-- A database with one pending request of one item, an addition whose value is there.
use configdeck.Errors.{Result, ok, err}
use configdeck.Prelude.Tables.{put}
use configdeck.Prelude.{
  ◌+◌, ◌^◌, ◌<◌, ◌≡◌, refl, false, true, none, some, [], ◌∷◌, Text, codes, arith, is_empty,
}
use configdeck.Requests.Lifecycle.Updates.{IsSound}
use configdeck.Requests.Rows.{requested, add, RequestRow, ItemRow, Db, items_of}
use configdeck.Requests.Schema.{is_consistent, ready_trigger}

abbrev pub now : Text
now = codes "2026-01-02T00:00:00Z"

abbrev pub a_request : RequestRow
a_request = record {
  id = codes "r";
  service_id = codes "s";
  environment_id = codes "e";
  status = requested;
  approved_by = none;
  approved_at = none;
  rejected_by = none;
  rejected_at = none;
  rejection_reason = none;
  applied_by = none;
  applied_at = none;
  preview_fingerprint = none;
  revision = 1;
}

abbrev pub an_item : ItemRow
an_item = record {
  id = codes "i";
  change_request_id = codes "r";
  variable_id = none;
  action = add;
  key = codes "PORT";
  base_variable_version = none;
  encrypted_proposed_value = some (codes "sealed");
  proposed_value_nonce = some (codes "nonce");
  proposed_dek_version = some 1;
  proposed_visibility = codes "public";
  proposed_value_type = codes "integer";
  proposed_description = none;
  proposed_group_name = none;
  proposed_display_order = 0;
  value_source = some (codes "REQUESTER_PROVIDED");
  value_fulfilled_at = none;
  item_revision = 1;
}

abbrev pub db_of : RequestRow → Db
db_of request = record {
  requests = put (λ _. none) (codes "r") request;
  items = an_item ∷ [];
  variables = λ _. [];
  versions = [];
  services =
      put (λ _. none) (codes "s") (record { organization_id = codes "o"; archived_at = none });
  environments =
      put (λ _. none) (codes "e")
        (record { id = codes "e"; service_id = codes "s"; archived_at = none });
  grants = [];
  active_dek_version = λ _. some 1;
  audit = [];
}

abbrev pub pending : Db
pending = db_of a_request

-- The database that a transaction leaves, or the one before it.
abbrev pub after : Db → Result Db → Db
after db (ok db') = db'
after db (err e) = db

pending_row : (id : Text) (r : RequestRow) → pending.requests id ≡ some r → a_request ≡ r
pending_row id r e = ground arith

pub pending_consistent :
    (id : Text) (r : RequestRow) → pending.requests id ≡ some r → is_consistent r ≡ true
unfolding is_consistent
pending_consistent id r e = rw (← pending_row id r e) refl

pending_ready :
    (id : Text) (r : RequestRow)
    → pending.requests id ≡ some r
    → ready_trigger (items_of pending id) r ≡ true
unfolding ready_trigger
pending_ready id r e = rw (← pending_row id r e) refl

pending_filled :
    (id : Text) (r : RequestRow)
    → pending.requests id ≡ some r
    → is_empty (items_of pending id) ≡ false
pending_filled id r e = ground arith

pub pending-IsSound : IsSound pending
pending-IsSound = record {
  consistent = pending_consistent;
  ready = pending_ready;
  filled = pending_filled;
}

pub pending_small :
    (r : RequestRow) → pending.requests (codes "r") ≡ some r → r.revision + 1 < 2 ^ 63
pending_small r e = rw (← pending_row (codes "r") r e) (omega arith)
