-- ===== src/Tests/Accounts.antt =====
-- Two administrators and a contributor, of whom one administrator manages the others.
use configdeck.Accounts.Administrators.{HasAdministrator, Reach-HasAdministrator}
use configdeck.Accounts.Ended.{account, Reach-ends}
use configdeck.Accounts.Guards.{PasswordService}
use configdeck.Accounts.Manage.{update_role, set_active, set_active_commit, reset_totp}
use configdeck.Accounts.Managers.{IsManager, managing_iff}
use configdeck.Accounts.Passwords.{reset_password}
use configdeck.Accounts.Steps.{Reach, here, next, changing_status}
use configdeck.Accounts.{
  Account, Db, string, bool, update_users, has_other_administrator, revoke_and_audit,
  revoke_sessions, insert_audit, delete_grants, store_of,
}
use configdeck.Auth.Session.Store.{SessionRow, load}
use configdeck.Auth.Session.{AuthenticatedSession, full, minutes}
use configdeck.Errors.{ok, err, forbidden, conflict, unauthorized}
use configdeck.Prelude.Int.{pos}
use configdeck.Prelude.{
  ℕ, ◌≡◌, ◌≢◌, ◌↔◌, ◌⊎◌, refl, true, false, none, some, [], ◌∷◌, Text, codes, eq_text,
  if◌then◌else◌,
}
use configdeck.Tests.Sessions.{an_operator, settings}
use configdeck.Users.{Role, administrator, contributor}

abbrev an_account : Text → Role → Account
an_account id role = record {
  id = id;
  organization_id = codes "o";
  email = id;
  email_normalized = id;
  password_hash = codes "h";
  role = role;
  active = true;
  auth_version = 1;
  totp_secret = none;
  totp_enabled_at = none;
  totp_last_used_step = none;
  password_changed_at = codes "t0";
  must_change_password = false;
  last_login_at = none;
  created_at = codes "t0";
  updated_at = codes "t0";
  created_by = none;
}

abbrev pub an_administrator : AuthenticatedSession
an_administrator = record an_operator { user = record an_operator.user { role = administrator } }

-- a session of the other administrator, under the token "k", whose hash is the token itself
abbrev a_row : SessionRow
a_row = record {
  session_id = codes "s2";
  token_hash = codes "k";
  csrf_token_hash = codes "c2";
  user_id = codes "b";
  auth_version = pos 1;
  authentication_state = full;
  created_at = minutes 999;
  last_seen_at = minutes 999;
  idle_expires_at = minutes 1010;
  absolute_expires_at = minutes 1400;
  privileged_authenticated_at = none;
  privileged_auth_level = none;
  revoked = false;
}

abbrev a_db : Db
a_db = record {
  users =
      an_account (codes "u") administrator
      ∷ an_account (codes "b") administrator
      ∷ an_account (codes "c") contributor
      ∷ [];
  sessions = λ h. if eq_text h (codes "k") then some a_row else none;
  grants = record { user_id = codes "c"; service_id = codes "v" } ∷ [];
  services = record { id = codes "v"; organization_id = codes "o"; name = codes "api" } ∷ [];
  audit = [];
}

abbrev passwords : PasswordService
passwords = record { hash = λ p. some p; verify = λ p h. some (eq_text p h) }

-- the database after the other administrator has been deactivated
abbrev deactivated : Db
deactivated = record a_db {
  users =
      an_account (codes "u") administrator
      ∷ record (an_account (codes "b") administrator) {
        active = false;
        auth_version = 2;
        updated_at = codes "t1";
      }
      ∷ an_account (codes "c") contributor
      ∷ [];
  sessions = revoke_sessions (codes "b") a_db.sessions;
  audit =
      record {
        occurred_at = codes "t1";
        actor_user_id = codes "u";
        action = codes "UPDATE_USER_STATUS";
        service_id = none;
        metadata = (codes "target_user_id", string (codes "b")) ∷ (codes "active", bool false) ∷ [];
      }
      ∷ [];
}

deactivating :
    set_active_commit an_administrator (codes "b") false (codes "t1") a_db ≡ ok deactivated
unfolding set_active_commit update_users has_other_administrator revoke_and_audit insert_audit
    delete_grants eq_text revoke_sessions
deactivating = refl

-- Nobody else can then take the last administrator away.
deactivating_last :
    set_active_commit an_administrator (codes "u") false (codes "t2") deactivated ≡ err conflict
unfolding set_active_commit update_users has_other_administrator revoke_and_audit insert_audit
    delete_grants eq_text revoke_sessions
deactivating_last = refl

a_step : Reach a_db deactivated
a_step = next here (changing_status an_administrator (codes "b") false (codes "t1") deactivating)

has_one : HasAdministrator (codes "o") a_db.users
unfolding eq_text
has_one = refl

found_before : account (codes "b") a_db ≡ some (an_account (codes "b") administrator)
unfolding eq_text
found_before = refl

Reach-HasAdministrator_example : HasAdministrator (codes "o") deactivated.users
Reach-HasAdministrator_example = Reach-HasAdministrator (codes "o") a_step has_one

Reach-ends_example :
    (account (codes "b") deactivated ≡ some (an_account (codes "b") administrator))
    ⊎ ((now : ℕ) (raw : Text) (row : SessionRow)
        → deactivated.sessions raw ≡ some row
        → row.user_id ≡ codes "b"
        → (load (λ t. t) settings now raw (store_of deactivated)).0 ≡ err unauthorized)
Reach-ends_example =
    Reach-ends (λ t. t) settings (an_account (codes "b") administrator) a_step found_before

managing_iff_example :
    ((update_role settings
          (minutes 1001)
          an_administrator
          (codes "b")
          (codes "OPERATOR")
          (codes "t1")
          a_db
        ≢ err forbidden)
      ↔ IsManager settings (minutes 1001) an_administrator (codes "b"))
    × ((set_active settings (minutes 1001) an_administrator (codes "b") false (codes "t1") a_db
          ≢ err forbidden)
        ↔ IsManager settings (minutes 1001) an_administrator (codes "b"))
    × ((reset_password passwords settings
            (minutes 1001)
            an_administrator
            (codes "b")
            (codes "a long password")
            (codes "t1")
            a_db
          ≢ err forbidden)
        ↔ IsManager settings (minutes 1001) an_administrator (codes "b"))
    × ((reset_totp settings (minutes 1001) an_administrator (codes "b") (codes "t1") a_db
          ≢ err forbidden)
        ↔ IsManager settings (minutes 1001) an_administrator (codes "b"))
managing_iff_example =
    managing_iff settings (minutes 1001) an_administrator passwords (codes "b") (codes "t1") a_db
      (codes "OPERATOR") (codes "a long password") false
