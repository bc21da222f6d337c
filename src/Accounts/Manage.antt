-- ===== src/Accounts/Manage.antt =====
-- `update_role`, `set_active`, `reset_totp` and `set_service_access` of src/users/mod.rs, each with
-- its transaction apart, as in Accounts.Passwords.
use configdeck.Accounts.{
  Account, string, bool, Db, is_administrator, is_contributor, is_member, has_other_administrator,
  update_users, revoke_sessions, insert_audit, revoke_and_audit, delete_grants, set_users,
}
use configdeck.Auth.Session.{AuthenticatedSession, SessionSettings}
use configdeck.Errors.{
  Result, ok, ◌>>=◌, ◌>>◌, require, ok_or, forbidden, not_found, conflict, invalid_request,
}
use configdeck.Prelude.{
  ℕ, Bool, true, false, not, ◌&&◌, ◌||◌, List, [], ◌∷◌, ◌++◌, none, some, Text, codes, eq_text,
  ◌==◌, if◌then◌else◌, any, filter,
}
use configdeck.Users.{Role, Grant, as_str, from_str}
use configdeck.Accounts.Guards.{ManagedUser, require_manager, require_recent_admin, managed_user}

-- the guard of the `UPDATE` of a role, on a row
abbrev pub may_lose_role : List Account → Role → Account → Bool
may_lose_role users role a =
    not (is_administrator a.role)
    || not a.active
    || is_administrator role
    || has_other_administrator users a

unfoldable pub update_role_commit :
    AuthenticatedSession → Text → ManagedUser → Role → Text → Db → Result Db
unfolding update_users revoke_and_audit delete_grants has_other_administrator
update_role_commit session user_id target role now db = do
  updated ←
      update_users
        (λ a. is_member user_id session.user.organization_id a && may_lose_role db.users role a)
        (λ a. record a { role = role; updated_at = now }) db.users
  require (updated.1 == 1) conflict
  ok (
      revoke_and_audit session user_id (codes "UPDATE_USER_ROLE")
        ((codes "target_user_id", string user_id)
          ∷ (codes "old_role", string (as_str target.role))
          ∷ (codes "new_role", string (as_str role))
          ∷ [])
        now (delete_grants user_id (set_users db updated.0)))

unfoldable pub update_role :
    SessionSettings → ℕ → AuthenticatedSession → Text → Text → Text → Db → Result Db
unfolding require_recent_admin managed_user from_str update_role_commit
update_role settings instant session user_id role now db = do
  require_recent_admin settings instant session
  require (not (eq_text user_id session.user.id)) forbidden
  new_role ← ok_or invalid_request (from_str role)
  target ← managed_user db session user_id
  if eq_text (as_str target.role) (as_str new_role)
      then ok db
      else update_role_commit session user_id target new_role now db

-- the guard of the `UPDATE` of the status, on a row
abbrev pub may_become : List Account → Bool → Account → Bool
may_become users active a =
    active || not (is_administrator a.role) || not a.active || has_other_administrator users a

unfoldable pub set_active_commit : AuthenticatedSession → Text → Bool → Text → Db → Result Db
unfolding update_users revoke_and_audit delete_grants has_other_administrator
set_active_commit session user_id active now db = do
  updated ←
      update_users
        (λ a. is_member user_id session.user.organization_id a && may_become db.users active a)
        (λ a. record a { active = active; updated_at = now }) db.users
  require (updated.1 == 1) conflict
  ok (
      revoke_and_audit session user_id (codes "UPDATE_USER_STATUS")
        ((codes "target_user_id", string user_id) ∷ (codes "active", bool active) ∷ []) now
        (delete_grants user_id (set_users db updated.0)))

abbrev pub eq_bool : Bool → Bool → Bool
eq_bool a b = if a then b else not b

unfoldable pub set_active :
    SessionSettings → ℕ → AuthenticatedSession → Text → Bool → Text → Db → Result Db
unfolding require_recent_admin managed_user set_active_commit delete_grants
set_active settings instant session user_id active now db = do
  require_recent_admin settings instant session
  require (not (eq_text user_id session.user.id)) forbidden
  target ← managed_user db session user_id
  if eq_bool target.active active
      then ok (if active then db else delete_grants user_id db)
      else set_active_commit session user_id active now db

unfoldable pub reset_totp_commit : AuthenticatedSession → Text → Text → Db → Result Db
unfolding update_users revoke_and_audit
reset_totp_commit session user_id now db = do
  updated ←
      update_users (is_member user_id session.user.organization_id)
        (λ a. record a {
          totp_secret = none;
          totp_enabled_at = none;
          totp_last_used_step = none;
          updated_at = now;
        })
        db.users
  ok (
      revoke_and_audit session user_id (codes "RESET_USER_TOTP")
        ((codes "target_user_id", string user_id) ∷ []) now (set_users db updated.0))

unfoldable pub reset_totp :
    SessionSettings → ℕ → AuthenticatedSession → Text → Text → Db → Result Db
unfolding require_recent_admin managed_user reset_totp_commit
reset_totp settings instant session user_id now db = do
  require_recent_admin settings instant session
  require (not (eq_text user_id session.user.id)) forbidden
  target ← managed_user db session user_id
  require target.totp_enabled invalid_request
  reset_totp_commit session user_id now db

abbrev pub is_grant : Text → Text → Grant → Bool
is_grant user_id service_id g = eq_text g.user_id user_id && eq_text g.service_id service_id

-- `INSERT OR IGNORE`, or the `DELETE`, with whether a row changed
unfoldable pub change_grant : Text → Text → Bool → List Grant → List Grant × Bool
change_grant user_id service_id granted grants =
    let held = any (is_grant user_id service_id) grants in
    if granted
    then (if held
        then (grants, false)
        else (grants ++ (record { user_id = user_id; service_id = service_id } ∷ []), true))
    else (filter (λ g. not (is_grant user_id service_id g)) grants, held)

-- It reads within its transaction.
unfoldable pub set_service_access :
    AuthenticatedSession → Text → Text → Bool → Text → Db → Result Db
unfolding require_manager change_grant update_users insert_audit
set_service_access session service_id user_id granted now db = do
  require_manager session
  require
      (any (λ s. eq_text s.id service_id && eq_text s.organization_id session.user.organization_id)
          db.services
        && any
            (λ a.
              is_member user_id session.user.organization_id a && is_contributor a.role && a.active)
            db.users)
      not_found
  let changed = change_grant user_id service_id granted db.grants
  if not changed.1
      then ok db
      else (update_users (λ a. eq_text a.id user_id) (λ a. record a { updated_at = now }) db.users
          >>= λ updated. ok (
              insert_audit session (codes "UPDATE_USER_ACCESS") (some service_id)
                ((codes "target_user_id", string user_id) ∷ (codes "granted", bool granted) ∷ [])
                now
                (record db {
                  users = updated.0;
                  sessions = revoke_sessions user_id db.sessions;
                  grants = changed.0;
                })))
