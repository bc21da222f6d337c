-- ===== src/Accounts/Steps.antt =====
-- Sequences of transactions on accounts, of any managers and in any order, as steps of the database.
-- A transaction that reads ahead of itself may go by anything that it read.
use configdeck.Accounts.Guards.{ManagedUser, UserCreateInput, PasswordService}
use configdeck.Accounts.Manage.{
  update_role_commit, set_active_commit, reset_totp_commit, set_service_access,
}
use configdeck.Accounts.Passwords.{create_user, change_own_password_commit, reset_password_commit}
use configdeck.Accounts.{Db, delete_grants}
use configdeck.Auth.Session.{AuthenticatedSession}
use configdeck.Errors.{ok}
use configdeck.Prelude.{◌≡◌, Bool, Text}
use configdeck.Users.{Role}

-- The transactions of src/users/mod.rs, by anybody, in any order and on whatever they had read.
pub data Step (db db' : Db) : Type 0 where
  creating :
      (to_lowercase : Text → Text) (passwords : PasswordService) (s : AuthenticatedSession)
      (input : UserCreateInput) (user_id now : Text)
      → create_user to_lowercase passwords s input user_id now db ≡ ok db'
      → Step db db'
  changing_password :
      (s : AuthenticatedSession) (replacement now : Text)
      → change_own_password_commit s replacement now db ≡ ok db'
      → Step db db'
  resetting_password :
      (s : AuthenticatedSession) (user_id replacement now : Text)
      → reset_password_commit s user_id replacement now db ≡ ok db'
      → Step db db'
  changing_role :
      (s : AuthenticatedSession) (user_id : Text) (target : ManagedUser) (role : Role) (now : Text)
      → update_role_commit s user_id target role now db ≡ ok db'
      → Step db db'
  changing_status :
      (s : AuthenticatedSession) (user_id : Text) (active : Bool) (now : Text)
      → set_active_commit s user_id active now db ≡ ok db'
      → Step db db'
  dropping_grants : (user_id : Text) → delete_grants user_id db ≡ db' → Step db db'
  resetting_totp :
      (s : AuthenticatedSession) (user_id now : Text)
      → reset_totp_commit s user_id now db ≡ ok db'
      → Step db db'
  changing_access :
      (s : AuthenticatedSession) (service_id user_id : Text) (granted : Bool) (now : Text)
      → set_service_access s service_id user_id granted now db ≡ ok db'
      → Step db db'

pub data Reach (db : Db) : Db → Type 0 where
  here : Reach db db
  next : {mid last : Db} → Reach db mid → Step mid last → Reach db last
