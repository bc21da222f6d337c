-- ===== src/Requests/History.antt =====
-- Sequences of workflow transactions, of any users and in any order, as steps of the database.
-- A transaction that reads ahead of itself may go by anything that it read: a step takes what was
-- read as an argument.
pub mod Rounds
pub mod Keeps
pub mod Final
use configdeck.Auth.Session.{AuthenticatedSession}
use configdeck.Errors.{Result, ok}
use configdeck.Prelude.{◌≡◌, List, Text}
use configdeck.Requests.Apply.Commit.{Codec, Prepared, preview_requests, apply_commit}
use configdeck.Requests.Rows.{WorkflowRequestRow, Db}
use configdeck.Requests.Workflow.{approve, reject, FulfillRow, SealedValue, fulfill_store}

pub data Step (db db' : Db) : Type 0 where
  approving :
      (s : AuthenticatedSession) (id now : Text) → approve s id now db ≡ ok db' → Step db db'
  rejecting :
      (s : AuthenticatedSession) (id reason now : Text)
      → reject s id reason now db ≡ ok db'
      → Step db db'
  fulfilling :
      (s : AuthenticatedSession) (f : FulfillRow) (v : SealedValue) (now : Text)
      → fulfill_store s f v now db ≡ ok db'
      → Step db db'
  previewing :
      (s : AuthenticatedSession) (fingerprint now : Text) (requests : List WorkflowRequestRow)
      → preview_requests s fingerprint now requests db ≡ ok db'
      → Step db db'
  applying :
      (c : Codec) (s : AuthenticatedSession) (p : Prepared) (now : Text)
      → apply_commit c s p now db ≡ ok db'
      → Step db db'

pub data Reach (db : Db) : Db → Type 0 where
  here : Reach db db
  next : {mid last : Db} → Reach db mid → Step mid last → Reach db last
