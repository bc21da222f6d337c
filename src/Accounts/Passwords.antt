-- ===== src/Accounts/Passwords.antt =====
-- `create_user`, `change_own_password` and `reset_password` of src/users/mod.rs. Each of the last two
-- is what it reads and tests, then its transaction, whose name ends in `_commit`: a transaction sees
-- the database as it is by then, which others may have changed. Texts named `now` are the time that
-- is written, `instant` is the clock that the session is tested against. Argon2 (with its salt) and
-- the lower case of Unicode are parameters.
use configdeck.Accounts.{
  Account, string, bool, Db, is_member, update_users, revoke_sessions, insert_audit,
  revoke_and_audit, set_users,
}
use configdeck.Auth.Session.{AuthenticatedSession, SessionSettings, require_full}
use configdeck.Errors.{
  Result, ok, ◌>>=◌, ◌>>◌, require, ok_or, forbidden, not_found, conflict, invalid_request,
  unauthorized, authentication, internal,
}
use configdeck.Prelude.Space.{trim}
use configdeck.Prelude.{
  ℕ, Bool, true, false, not, ◌&&◌, ◌||◌, List, [], ◌∷◌, ◌++◌, none, some, Text, codes, eq_text,
  ◌==◌, any, find,
}
use configdeck.Users.{Role, as_str, from_str}
use configdeck.Accounts.Guards.{
  UserCreateInput, PasswordService, is_password_length, require_manager, require_recent_admin,
  managed_user, normalize_email,
}

-- the row that `create_user` inserts
abbrev pub created_account :
    AuthenticatedSession → Text → Text → Text → Text → Role → Text → Account
created_account session user_id email email_normalized password_hash role now = record {
  id = user_id;
  organization_id = session.user.organization_id;
  email = email;
  email_normalized = email_normalized;
  password_hash = password_hash;
  role = role;
  active = true;
  auth_version = 1;
  totp_secret = none;
  totp_enabled_at = none;
  totp_last_used_step = none;
  password_changed_at = now;
  must_change_password = true;
  last_login_at = none;
  created_at = now;
  updated_at = now;
  created_by = some session.user.id;
}

-- `id` is the primary key, and `email_normalized` is unique.
abbrev pub is_taken : Account → List Account → Bool
is_taken new users =
    any (λ a. eq_text a.id new.id || eq_text a.email_normalized new.email_normalized) users

unfoldable pub change_own_password_commit : AuthenticatedSession → Text → Text → Db → Result Db
unfolding update_users insert_audit
change_own_password_commit session replacement now db = do
  updated ←
      update_users (λ a. eq_text a.id session.user.id)
        (λ a. record a {
          password_hash = replacement;
          password_changed_at = now;
          must_change_password = false;
          updated_at = now;
        })
        db.users
  ok (
      insert_audit session (codes "CHANGE_PASSWORD") none
        ((codes "forced", bool session.user.must_change_password) ∷ []) now
        (record db { users = updated.0; sessions = revoke_sessions session.user.id db.sessions }))

unfoldable pub reset_password_commit : AuthenticatedSession → Text → Text → Text → Db → Result Db
unfolding update_users revoke_and_audit
reset_password_commit session user_id replacement now db = do
  updated ←
      update_users (is_member user_id session.user.organization_id)
        (λ a. record a {
          password_hash = replacement;
          password_changed_at = now;
          must_change_password = true;
          updated_at = now;
        })
        db.users
  require (updated.1 == 1) not_found
  ok (
      revoke_and_audit session user_id (codes "RESET_USER_PASSWORD")
        ((codes "target_user_id", string user_id) ∷ (codes "must_change_password", bool true) ∷ [])
        now (set_users db updated.0))

module _ (to_lowercase : Text → Text) (passwords : PasswordService) where
  -- `user_id` is the fresh identifier.
  unfoldable pub create_user : AuthenticatedSession → UserCreateInput → Text → Text → Db → Result Db
  unfolding require_manager normalize_email from_str insert_audit trim
  create_user session input user_id now db = do
    require_manager session
    email_normalized ← normalize_email to_lowercase input.email
    role ← ok_or invalid_request (from_str input.role)
    require (is_password_length input.initial_password) invalid_request
    password_hash ← ok_or internal (passwords.hash input.initial_password)
    let new =
        created_account session user_id (trim input.email) email_normalized password_hash role now
    require (not (is_taken new db.users)) conflict
    ok (
        insert_audit session (codes "CREATE_USER") none
          ((codes "target_user_id", string user_id) ∷ (codes "role", string (as_str role)) ∷ []) now
          (set_users db (db.users ++ (new ∷ []))))

module _ (passwords : PasswordService) where
  unfoldable pub change_own_password : AuthenticatedSession → Text → Text → Text → Db → Result Db
  unfolding require_full change_own_password_commit
  change_own_password session current_password new_password now db = do
    require_full session
    require (is_password_length new_password && not (eq_text new_password current_password))
        invalid_request
    a ←
        ok_or unauthorized (
          find (λ a. is_member session.user.id session.user.organization_id a && a.active) db.users)
    verified ← ok_or internal (passwords.verify current_password a.password_hash)
    require verified authentication
    replacement ← ok_or internal (passwords.hash new_password)
    change_own_password_commit session replacement now db

  unfoldable pub reset_password :
      SessionSettings → ℕ → AuthenticatedSession → Text → Text → Text → Db → Result Db
  unfolding require_recent_admin managed_user reset_password_commit
  reset_password settings instant session user_id temporary_password now db = do
    require_recent_admin settings instant session
    require (not (eq_text user_id session.user.id)) forbidden
    target ← managed_user db session user_id
    require (is_password_length temporary_password) invalid_request
    replacement ← ok_or internal (passwords.hash temporary_password)
    reset_password_commit session user_id replacement now db
