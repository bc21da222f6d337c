-- ===== src/Accounts.antt =====
-- The tables that src/users/mod.rs reads and writes, and the statements that change them. Users are
-- a list, since some statements look at the other users of an organization; sessions are those of
-- Auth.Session.Store. A column that is a hash, a time or an identifier is a text.
pub mod Guards
pub mod Passwords
pub mod Manage
pub mod Writes
pub mod Steps
pub mod Managers
pub mod Administrators
pub mod Ended
use configdeck.Auth.Session.Store.{SessionRow, UserRow, Store, revoked_row}
use configdeck.Auth.Session.{AuthenticatedSession}
use configdeck.Errors.{Result, ok, err, database}
use configdeck.Prelude.Int.{pos}
use configdeck.Prelude.Tables.{Table}
use configdeck.Prelude.{
  ℕ, suc, ◌+◌, ◌^◌, Bool, true, false, not, ◌&&◌, ◌||◌, List, [], ◌∷◌, ◌++◌, Option, none, some,
  Text, eq_text, ltb, if◌then◌else◌, any, find, filter, update_where, count_where, is_some,
}
use configdeck.Users.{Role, administrator, contributor, Grant}

-- The columns of a TOTP secret, which a CHECK of the table keeps present or absent together.
pub record SealedSecret : Type 0 where
  pub ciphertext : List ℕ
  pub nonce : List ℕ
  pub crypto_version : ℕ
  pub kek_version : ℕ

-- A row of users.
pub record Account : Type 0 where
  pub id : Text
  pub organization_id : Text
  pub email : Text
  pub email_normalized : Text
  pub password_hash : Text
  pub role : Role
  pub active : Bool
  pub auth_version : ℕ
  pub totp_secret : Option SealedSecret
  pub totp_enabled_at : Option Text
  pub totp_last_used_step : Option ℕ
  pub password_changed_at : Text
  pub must_change_password : Bool
  pub last_login_at : Option Text
  pub created_at : Text
  pub updated_at : Text
  pub created_by : Option Text

-- The columns of services that are read here.
pub record ServiceRow : Type 0 where
  pub id : Text
  pub organization_id : Text
  pub name : Text

-- A value in the JSON object of an audit line.
pub data Json : Type 0 where
  string : Text → Json
  bool : Bool → Json

-- A line of audit_logs.
pub record AuditLine : Type 0 where
  pub occurred_at : Text
  pub actor_user_id : Text
  pub action : Text
  pub service_id : Option Text
  pub metadata : List (Text × Json)

pub record Db : Type 0 where
  pub users : List Account
  pub sessions : Table SessionRow
  pub grants : List Grant
  pub services : List ServiceRow
  pub audit : List AuditLine

abbrev pub is_administrator : Role → Bool
is_administrator administrator = true
is_administrator _ = false

abbrev pub is_contributor : Role → Bool
is_contributor contributor = true
is_contributor _ = false

-- `id = ? AND organization_id = ?`
abbrev pub is_member : Text → Text → Account → Bool
is_member user_id organization_id a =
    eq_text a.id user_id && eq_text a.organization_id organization_id

-- `EXISTS(SELECT 1 FROM users other …)` for the row `a`
unfoldable pub has_other_administrator : List Account → Account → Bool
has_other_administrator users a =
    any
      (λ other.
        eq_text other.organization_id a.organization_id
        && is_administrator other.role
        && other.active
        && not (eq_text other.id a.id))
      users

abbrev pub bump : Account → Account
bump a = record a { auth_version = a.auth_version + 1 }

-- `UPDATE users SET …, auth_version = auth_version + 1 WHERE …` with the number of rows affected.
-- The column is a 64-bit integer: a sum that is none violates the type of the table.
unfoldable pub update_users :
    (Account → Bool) → (Account → Account) → List Account → Result (List Account × ℕ)
update_users test set users =
    if any (λ a. test a && not (ltb (a.auth_version + 1) (2 ^ 63))) users
    then err database
    else ok (update_where test (λ a. bump (set a)) users, count_where test users)

-- `UPDATE sessions SET revoked_at = ? … WHERE user_id = ? AND revoked_at IS NULL`
unfoldable pub revoke_sessions : Text → Table SessionRow → Table SessionRow
revoke_sessions user_id sessions token_hash = elim (sessions token_hash) [
  | none ↦ none
  | some row ↦ some (if eq_text row.user_id user_id then revoked_row row else row)
]

-- `INSERT INTO audit_logs`
unfoldable pub insert_audit :
    AuthenticatedSession → Text → Option Text → List (Text × Json) → Text → Db → Db
insert_audit session action service_id metadata now db = record db {
  audit =
      db.audit
      ++ (record {
        occurred_at = now;
        actor_user_id = session.user.id;
        action = action;
        service_id = service_id;
        metadata = metadata;
      }
          ∷ []);
}

-- `revoke_and_audit`
unfoldable pub revoke_and_audit :
    AuthenticatedSession → Text → Text → List (Text × Json) → Text → Db → Db
unfolding insert_audit
revoke_and_audit session user_id action metadata now db =
    insert_audit session action none metadata now
      (record db { sessions = revoke_sessions user_id db.sessions })

-- `DELETE FROM user_service_access WHERE user_id = ?`
unfoldable pub delete_grants : Text → Db → Db
delete_grants user_id db = record db {
  grants = filter (λ g. not (eq_text g.user_id user_id)) db.grants;
}

abbrev pub set_users : Db → List Account → Db
set_users db users = record db { users = users }

-- The columns of users that the sessions read.
abbrev pub user_row : Account → UserRow
user_row a = record {
  id = a.id;
  organization_id = a.organization_id;
  email = a.email;
  role = a.role;
  auth_version = pos a.auth_version;
  active = a.active;
  totp_enabled = is_some a.totp_enabled_at;
  must_change_password = a.must_change_password;
}

abbrev pub row_of : List Account → Text → Option UserRow
row_of users id = elim (find (λ a. eq_text a.id id) users) [
  | none ↦ none
  | some a ↦ some (user_row a)
]

-- The tables as src/auth/session.rs sees them.
abbrev pub store_of : Db → Store
store_of db = record { sessions = db.sessions; users = row_of db.users }
