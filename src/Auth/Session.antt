-- ===== src/Auth/Session.antt =====
-- src/auth/session.rs. Instants and durations are nanoseconds; an instant counts from the first
-- one that the calendar has, so that the difference of two is taken apart by their order. The
-- clock, the hash (SHA-256) and fresh tokens are arguments.
pub mod Laws
pub mod Store
use configdeck.Errors.{
  AppError, unauthorized, forbidden, authentication, Result, ok, err, ◌>>=◌, ◌>>◌, require, ok_or,
}
use configdeck.Prelude.Int.{ℤ, eqb_ℤ}
use configdeck.Prelude.Tables.{Table, put}
use configdeck.Prelude.{
  ℕ, ◌+◌, ◌*◌, ◌≡◌, Bool, true, false, not, ◌&&◌, ◌||◌, Option, none, some, List, [], ◌∷◌, Text,
  codes, eq_text, ltb, leb, if◌then◌else◌,
}
use configdeck.Users.{Role, from_str}
use Prim.Native.Nat.{min}

pub data AuthenticationState : Type 0 where
  password_only full : AuthenticationState

pub data PrivilegedAuthLevel : Type 0 where
  standard high_impact : PrivilegedAuthLevel

pub record SessionUser : Type 0 where
  pub id : Text
  pub organization_id : Text
  pub email : Text
  pub role : Role
  pub auth_version : ℤ
  pub totp_enabled : Bool
  pub must_change_password : Bool

pub record AuthenticatedSession : Type 0 where
  pub id : Text
  pub token_hash : Text
  pub csrf_token_hash : Text
  pub user : SessionUser
  pub authentication_state : AuthenticationState
  pub privileged_authenticated_at : Option ℕ
  pub privileged_auth_level : Option PrivilegedAuthLevel

pub record SessionSettings : Type 0 where
  pub idle_timeout : ℕ
  pub absolute_timeout : ℕ
  pub recent_auth_timeout : ℕ

abbrev pub minutes : ℕ → ℕ
minutes n = n * 60000000000

abbrev pub is_full : AuthenticationState → Bool
is_full full = true
is_full password_only = false

unfoldable pub require_full : AuthenticatedSession → Result (Unit {0})
require_full session = require (is_full session.authentication_state) forbidden

-- the `matches!` of `level_ok`
unfoldable pub level_ok : Option PrivilegedAuthLevel → PrivilegedAuthLevel → Bool
level_ok (some high_impact) required = true
level_ok (some standard) standard = true
level_ok (some standard) high_impact = false
level_ok none required = false

unfoldable pub timeout_for : SessionSettings → PrivilegedAuthLevel → ℕ
timeout_for settings standard = settings.recent_auth_timeout
timeout_for settings high_impact = min settings.recent_auth_timeout (minutes 2)

-- `elapsed >= 0 && elapsed < timeout`, for an authentication at `at`
abbrev is_recent : ℕ → Option ℕ → ℕ → Bool
is_recent now none timeout = false
is_recent now (some at) timeout = leb at now && ltb now (at + timeout)

unfoldable pub has_recent_auth :
    SessionSettings → ℕ → AuthenticatedSession → PrivilegedAuthLevel → Bool
unfolding level_ok timeout_for
has_recent_auth settings now session required =
    if not (is_full session.authentication_state) || session.user.must_change_password
    then false
    else level_ok session.privileged_auth_level required
      && is_recent now session.privileged_authenticated_at (timeout_for settings required)
