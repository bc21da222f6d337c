-- ===== src/Accounts/Managers.antt =====
-- Who may change the accounts of others.
use configdeck.Accounts.Guards.{PasswordService, require_recent_admin, managed_user}
use configdeck.Accounts.Manage.{
  update_role, set_active, reset_totp, update_role_commit, set_active_commit, reset_totp_commit,
}
use configdeck.Accounts.Passwords.{reset_password, reset_password_commit}
use configdeck.Accounts.{Db, Account, update_users, is_member}
use configdeck.Auth.Session.{
  AuthenticatedSession, SessionSettings, PrivilegedAuthLevel, full, has_recent_auth,
}
use configdeck.Errors.{
  AppError, Result, ok, err, ◌>>◌, ◌>>=◌, require, ok_or, forbidden, not_found, Result-cases,
}
use configdeck.Prelude.{
  ℕ, ◌+◌, ◌≤◌, ◌<◌, ◌≡◌, ◌≢◌, List, find, ◌↔◌, Bool, true, false, not, Text, eq_text, eq_text_iff,
  arith, Option, none, some, if◌then◌else◌, Option-cases, Bool-cases, inl, inr,
}
use configdeck.Users.{from_str, administrator, allows}

abbrev IsAllowed {ℓ} : {A : Type ℓ} → Result A → Type ℓ
IsAllowed m = m ≢ err forbidden

>>=-IsAllowed {ℓ κ} :
    {A : Type ℓ} {B : Type κ} {m : Result A} {k : A → Result B}
    → IsAllowed m
    → ((a : A) → IsAllowed (k a))
    → IsAllowed (m >>= k)
>>=-IsAllowed {m = ok a} p q = q a
>>=-IsAllowed {m = err e} p q = λ h. p (ground arith)

ok-IsAllowed {ℓ} : {A : Type ℓ} (a : A) → IsAllowed (ok a)
ok-IsAllowed a = λ h. cc

ok_or-IsAllowed {ℓ} :
    {A : Type ℓ} {e : AppError} → e ≢ forbidden → (o : Option A) → IsAllowed (ok_or e o)
ok_or-IsAllowed p none = λ h. p (ground arith)
ok_or-IsAllowed p (some a) = λ h. cc

require-IsAllowed : {e : AppError} → e ≢ forbidden → (b : Bool) → IsAllowed (require b e)
require-IsAllowed p true = λ h. cc
require-IsAllowed p false = λ h. p (ground arith)

if-IsAllowed {ℓ} :
    {A : Type ℓ} {m n : Result A} (b : Bool)
    → IsAllowed m
    → IsAllowed n
    → IsAllowed (if b then m else n)
if-IsAllowed true p q = p
if-IsAllowed false p q = q

update_users-IsAllowed :
    (t : Account → Bool) (f : Account → Account) (users : List Account)
    → IsAllowed (update_users t f users)
unfolding update_users
update_users-IsAllowed t f users = λ h. ground arith

module _ (settings : SessionSettings) (instant : ℕ) (s : AuthenticatedSession) where
  -- A confirmed administrator, and somebody else's account.
  pub record IsManager (user_id : Text) : Type 0 where
    pub full_session : s.authentication_state ≡ full
    pub role : s.user.role ≡ administrator
    pub settled : s.user.must_change_password ≡ false
    pub level : PrivilegedAuthLevel
    pub has_level : s.privileged_auth_level ≡ some level
    pub at : ℕ
    pub confirmed : s.privileged_authenticated_at ≡ some at
    pub past : at ≤ instant
    pub timely : instant < at + settings.recent_auth_timeout
    pub other : user_id ≢ s.user.id

  passes-IsManager :
      (user_id : Text)
      → require_recent_admin settings instant s ≡ ok tt
      → eq_text user_id s.user.id ≡ false
      → IsManager user_id
  unfolding require_recent_admin has_recent_auth allows
  passes-IsManager user_id h o = elim (Option-cases s.privileged_authenticated_at) [
    | inl e ↦ absurd (ground arith)
    | inr (at, e) ↦ elim (Option-cases s.privileged_auth_level) [
      | inl l ↦ absurd (ground arith)
      | inr (level, l) ↦ record {
        full_session = ground arith;
        role = ground arith;
        settled = ground arith;
        level = level;
        has_level = l;
        at = at;
        confirmed = e;
        past = ground arith;
        timely = ground arith;
        other = ground (arith, eq_text_iff user_id s.user.id);
      }
    ]
  ]

  IsManager-passes :
      (user_id : Text)
      → IsManager user_id
      → (require_recent_admin settings instant s ≡ ok tt) × (eq_text user_id s.user.id ≡ false)
  unfolding require_recent_admin has_recent_auth allows
  IsManager-passes user_id m = (
    ground (arith, m.full_session, m.role, m.settled, m.has_level, m.confirmed, m.past, m.timely),
    ground (arith, m.other, eq_text_iff user_id s.user.id),
  )

  -- The tests that these operations begin with.
  abbrev gate : Text → Result Db → Result Db
  gate user_id rest = do
    require_recent_admin settings instant s
    require (not (eq_text user_id s.user.id)) forbidden
    rest

  gate_iff :
      (user_id : Text) (rest : Result Db)
      → rest ≢ err forbidden
      → (gate user_id rest ≢ err forbidden) ↔ IsManager user_id
  unfolding require_recent_admin
  gate_iff user_id rest never = (
    λ h. elim (Result-cases (require_recent_admin settings instant s)) [
      | inr (e, p) ↦ absurd (h (ground arith))
      | inl (u, p) ↦ elim (Bool-cases (eq_text user_id s.user.id)) [
        | inl q ↦ absurd (h (ground arith))
        | inr q ↦ passes-IsManager user_id p q
      ]
    ],
    λ m. ground (arith, never, IsManager-passes user_id m),
  )

  module _ (passwords : PasswordService) (user_id now : Text) (db : Db) where
    managed_user-IsAllowed : IsAllowed (managed_user db s user_id)
    unfolding managed_user
    managed_user-IsAllowed = ground (
      arith,
      ok_or-IsAllowed {e = not_found} (λ h. cc)
          (find (is_member user_id s.user.organization_id) db.users),
    )

    -- Changing the role or the status of an account, and resetting its password or its TOTP, is
    -- forbidden exactly unless the session is a full one of an administrator with a settled
    -- password and a recent authentication, and the account is another one's; any other error is a
    -- different one.
    pub managing_iff :
        (role temporary_password : Text) (active : Bool)
        → ((update_role settings instant s user_id role now db ≢ err forbidden) ↔ IsManager user_id)
          × ((set_active settings instant s user_id active now db ≢ err forbidden)
              ↔ IsManager user_id)
          × ((reset_password passwords settings instant s user_id temporary_password now db
                ≢ err forbidden)
              ↔ IsManager user_id)
          × ((reset_totp settings instant s user_id now db ≢ err forbidden) ↔ IsManager user_id)
    unfolding update_role set_active reset_password reset_totp update_role_commit set_active_commit
        reset_password_commit reset_totp_commit
    managing_iff role temporary_password active = (
      gate_iff user_id _ (
          >>=-IsAllowed (ok_or-IsAllowed (λ h. cc) (from_str role)) (λ r.
            >>=-IsAllowed managed_user-IsAllowed (λ target. if-IsAllowed _ (ok-IsAllowed _) (
              >>=-IsAllowed (update_users-IsAllowed _ _ db.users)
                (λ u. >>=-IsAllowed (require-IsAllowed (λ h. cc) _) (λ v. ok-IsAllowed _)))))),
      gate_iff user_id _ (
          >>=-IsAllowed managed_user-IsAllowed (λ target. if-IsAllowed _ (ok-IsAllowed _) (
            >>=-IsAllowed (update_users-IsAllowed _ _ db.users)
              (λ u. >>=-IsAllowed (require-IsAllowed (λ h. cc) _) (λ v. ok-IsAllowed _))))),
      gate_iff user_id _ (
          >>=-IsAllowed managed_user-IsAllowed (λ target.
            >>=-IsAllowed (require-IsAllowed (λ h. cc) _) (λ v.
              >>=-IsAllowed (ok_or-IsAllowed (λ h. cc) (passwords.hash temporary_password))
                (λ replacement.
                  >>=-IsAllowed (update_users-IsAllowed _ _ db.users)
                    (λ u. >>=-IsAllowed (require-IsAllowed (λ h. cc) _) (λ w. ok-IsAllowed _)))))),
      gate_iff user_id _ (
          >>=-IsAllowed managed_user-IsAllowed (λ target.
            >>=-IsAllowed (require-IsAllowed (λ h. cc) _)
              (λ v. >>=-IsAllowed (update_users-IsAllowed _ _ db.users) (λ u. ok-IsAllowed _)))),
    )
