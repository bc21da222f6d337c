-- ===== src/Accounts/Guards.antt =====
-- What the operations of src/users/mod.rs test before they write, and `normalize_email` of
-- src/auth/bootstrap.rs. The lower case of Unicode is a parameter.
use configdeck.Accounts.{Db, is_member}
use configdeck.Auth.Session.{
  AuthenticatedSession, SessionSettings, standard, require_full, has_recent_auth,
}
use configdeck.Errors.{
  Result, ok, err, ◌>>=◌, ◌>>◌, require, ok_or, forbidden, not_found, invalid_request,
}
use configdeck.Prelude.Space.{trim}
use configdeck.Prelude.{
  ℕ, Bool, false, not, ◌&&◌, ◌||◌, [], ◌∷◌, Option, Text, ◌==◌, leb, if◌then◌else◌, byte_len, any,
  find, is_some,
}
use configdeck.Users.{Role, allows, manage_users}

-- `ManagedUser`
pub record ManagedUser : Type 0 where
  pub role : Role
  pub active : Bool
  pub totp_enabled : Bool

-- `UserCreateInput`
pub record UserCreateInput : Type 0 where
  pub email : Text
  pub initial_password : Text
  pub role : Text

-- `PasswordService`: `none` is a failure of the library
pub record PasswordService : Type 0 where
  pub hash : Text → Option Text
  pub verify : Text → Text → Option Bool

-- 12 to 1024 bytes
abbrev pub is_password_length : Text → Bool
is_password_length password = leb 12 (byte_len password) && leb (byte_len password) 1024

unfoldable pub require_manager : AuthenticatedSession → Result (Unit {0})
unfolding require_full
require_manager session = do
  require_full session
  require (allows session.user.role manage_users) forbidden

unfoldable pub require_recent_admin : SessionSettings → ℕ → AuthenticatedSession → Result (Unit {0})
unfolding require_full
require_recent_admin settings instant session = do
  require_full session
  require
      (allows session.user.role manage_users && has_recent_auth settings instant session standard)
      forbidden

unfoldable pub managed_user : Db → AuthenticatedSession → Text → Result ManagedUser
managed_user db session user_id = do
  a ← ok_or not_found (find (is_member user_id session.user.organization_id) db.users)
  ok (record { role = a.role; active = a.active; totp_enabled = is_some a.totp_enabled_at })

-- `contains('@')`, `starts_with('@')` and `ends_with('@')`
abbrev pub is_at : ℕ → Bool
is_at c = c == b'@'

abbrev pub starts_with_at : Text → Bool
starts_with_at [] = false
starts_with_at (c ∷ cs) = is_at c

abbrev pub ends_with_at : Text → Bool
ends_with_at [] = false
ends_with_at (c ∷ []) = is_at c
ends_with_at (c ∷ d ∷ cs) = ends_with_at (d ∷ cs)

-- `normalize_email` of src/auth/bootstrap.rs, whose error every caller here maps
unfoldable pub normalize_email : (Text → Text) → Text → Result Text
unfolding trim
normalize_email to_lowercase email =
    let normalized = to_lowercase (trim email) in
    if leb 321 (byte_len normalized)
      || not (any is_at normalized)
      || starts_with_at normalized
      || ends_with_at normalized
    then err invalid_request
    else ok normalized
