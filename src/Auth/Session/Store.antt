-- ===== src/Auth/Session/Store.antt =====
-- `create`, `load`, `revoke` and `verify_csrf` of src/auth/session.rs over the tables sessions and
-- users. The hash (SHA-256) is a parameter; the clock and the fresh tokens are arguments. Instants
-- are stored as texts that are read back as the same instants, and stand here for themselves.
pub mod Live
pub mod Rotate
pub mod Refused
use configdeck.Auth.Session.{
  AuthenticationState, password_only, full, PrivilegedAuthLevel, SessionUser, AuthenticatedSession,
  SessionSettings, minutes,
}
use configdeck.Errors.{Result, ok, err, unauthorized, forbidden, database, require}
use configdeck.Prelude.Int.{ℤ, eqb_ℤ}
use configdeck.Prelude.Tables.{Table, put}
use configdeck.Prelude.{
  ℕ, ◌+◌, Bool, true, false, not, ◌&&◌, ◌||◌, Option, none, some, Text, eq_text, leb, if◌then◌else◌,
}
use configdeck.Users.{Role}
use Prim.Native.Nat.{min}

-- A row of sessions, found by its token's hash, which is unique.
pub record SessionRow : Type 0 where
  pub session_id : Text
  pub token_hash : Text
  pub csrf_token_hash : Text
  pub user_id : Text
  pub auth_version : ℤ
  pub authentication_state : AuthenticationState
  pub created_at : ℕ
  pub last_seen_at : ℕ
  pub idle_expires_at : ℕ
  pub absolute_expires_at : ℕ
  pub privileged_authenticated_at : Option ℕ
  pub privileged_auth_level : Option PrivilegedAuthLevel
  pub revoked : Bool

-- The columns of users that `load` reads.
pub record UserRow : Type 0 where
  pub id : Text
  pub organization_id : Text
  pub email : Text
  pub role : Role
  pub auth_version : ℤ
  pub active : Bool
  pub totp_enabled : Bool
  pub must_change_password : Bool

pub record Store : Type 0 where
  pub sessions : Table SessionRow
  pub users : Table UserRow

abbrev pub is_password_only : AuthenticationState → Bool
is_password_only password_only = true
is_password_only full = false

-- the condition under which `load` revokes the session
unfoldable pub is_dead : ℕ → SessionRow → UserRow → Bool
is_dead now row user =
    not user.active
    || not (eqb_ℤ row.auth_version user.auth_version)
    || leb row.idle_expires_at now
    || leb row.absolute_expires_at now
    || is_password_only row.authentication_state && leb (row.created_at + minutes 5) now

abbrev pub revoked_row : SessionRow → SessionRow
revoked_row row = record row { revoked = true }

-- The `UPDATE` that marks the session as seen, at most once a minute.
unfoldable pub seen_row : SessionSettings → ℕ → SessionRow → SessionRow
seen_row settings now row =
    if leb (row.last_seen_at + minutes 1) now
    then record row {
      last_seen_at = now;
      idle_expires_at = min (now + settings.idle_timeout) row.absolute_expires_at;
    }
    else row

abbrev pub session_of : SessionRow → UserRow → AuthenticatedSession
session_of row user = record {
  id = row.session_id;
  token_hash = row.token_hash;
  csrf_token_hash = row.csrf_token_hash;
  user = record {
    id = user.id;
    organization_id = user.organization_id;
    email = user.email;
    role = user.role;
    auth_version = user.auth_version;
    totp_enabled = user.totp_enabled;
    must_change_password = user.must_change_password;
  };
  authentication_state = row.authentication_state;
  privileged_authenticated_at = row.privileged_authenticated_at;
  privileged_auth_level = row.privileged_auth_level;
}

abbrev pub set_session : Store → Text → SessionRow → Store
set_session st token_hash row = record st { sessions = put st.sessions token_hash row }

module _ (hash : Text → Text) (settings : SessionSettings) where
  -- `load` of a row of the joined tables
  unfoldable pub load_row :
      ℕ → Text → SessionRow → UserRow → Store → Result AuthenticatedSession × Store
  unfolding is_dead seen_row
  load_row now token_hash row user st =
      if not (eq_text row.token_hash token_hash)
      then (err unauthorized, st)
      else if is_dead now row user
      then (err unauthorized, set_session st token_hash (revoked_row row))
      else (ok (session_of row user), set_session st token_hash (seen_row settings now row))

  unfoldable pub load : ℕ → Text → Store → Result AuthenticatedSession × Store
  unfolding load_row
  load now raw_token st = elim (st.sessions (hash raw_token)) [
    | none ↦ (err unauthorized, st)
    | some row ↦ elim (st.users row.user_id) [
      | none ↦ (err unauthorized, st)
      | some user ↦
          if row.revoked then (err unauthorized, st) else load_row now (hash raw_token) row user st
    ]
  ]

  unfoldable pub revoke : Text → Store → Store
  revoke raw_token st = elim (st.sessions (hash raw_token)) [
    | none ↦ st
    | some row ↦ set_session st (hash raw_token) (revoked_row row)
  ]

  -- the row that `create` inserts
  abbrev pub new_row : ℕ → Text → Text → Text → SessionUser → AuthenticationState → SessionRow
  new_row now id raw csrf user state =
      let absolute_timeout =
        if is_password_only state
        then min settings.absolute_timeout (minutes 5)
        else settings.absolute_timeout in
      record {
        session_id = id;
        token_hash = hash raw;
        csrf_token_hash = hash csrf;
        user_id = user.id;
        auth_version = user.auth_version;
        authentication_state = state;
        created_at = now;
        last_seen_at = now;
        idle_expires_at = now + min settings.idle_timeout absolute_timeout;
        absolute_expires_at = now + absolute_timeout;
        privileged_authenticated_at = none;
        privileged_auth_level = none;
        revoked = false;
      }

  -- `id`, `raw` and `csrf` are the fresh identifier and the two tokens; a token whose hash is taken
  -- breaks the uniqueness of that column.
  unfoldable pub create :
      ℕ → Text → Text → Text → SessionUser → AuthenticationState → Store → Result Store
  create now id raw csrf user state st = elim (st.sessions (hash raw)) [
    | some row ↦ err database
    | none ↦ ok (set_session st (hash raw) (new_row now id raw csrf user state))
  ]

  unfoldable pub verify_csrf : AuthenticatedSession → Text → Result (Unit {0})
  verify_csrf session provided = require (eq_text session.csrf_token_hash (hash provided)) forbidden
