-- ===== src/Auth/Session/Laws.antt =====
-- When an authentication counts as recent.
use configdeck.Auth.Session.{
  full, standard, high_impact, AuthenticatedSession, SessionSettings, minutes, has_recent_auth,
}
use configdeck.Prelude.{
  ℕ, ◌+◌, ◌≤◌, ◌<◌, ◌≡◌, ◌↔◌, true, false, some, arith, Option-cases, inl, inr,
}

-- What a privileged operation of high impact asks of a session.
pub record IsConfirmed (settings : SessionSettings) (now : ℕ) (s : AuthenticatedSession)
    : Type 0 where
  pub full_session : s.authentication_state ≡ full
  pub settled : s.user.must_change_password ≡ false
  pub level : s.privileged_auth_level ≡ some high_impact
  pub at : ℕ
  pub confirmed : s.privileged_authenticated_at ≡ some at
  pub past : at ≤ now
  pub timely : now < at + settings.recent_auth_timeout
  pub within_minutes : now < at + minutes 2

has_recent_auth-IsConfirmed :
    (settings : SessionSettings) (now : ℕ) (s : AuthenticatedSession)
    → has_recent_auth settings now s high_impact ≡ true
    → IsConfirmed settings now s
unfolding has_recent_auth
has_recent_auth-IsConfirmed settings now s h = elim (Option-cases s.privileged_authenticated_at) [
  | inl e ↦ absurd (ground arith)
  | inr (at, e) ↦ record {
    full_session = ground arith;
    settled = ground arith;
    level = ground arith;
    at = at;
    confirmed = e;
    past = ground arith;
    timely = ground arith;
    within_minutes = ground arith;
  }
]

-- A session passes for an operation of high impact exactly if it is complete, its password need
-- not be changed, and it was confirmed at high impact, not in the future, and less than both the
-- configured time and two minutes ago; and then it passes for a standard operation too.
pub has_recent_auth_iff :
    (settings : SessionSettings) (now : ℕ) (s : AuthenticatedSession)
    → ((has_recent_auth settings now s high_impact ≡ true) ↔ IsConfirmed settings now s)
      × (has_recent_auth settings now s high_impact ≡ true
          → has_recent_auth settings now s standard ≡ true)
unfolding has_recent_auth
has_recent_auth_iff settings now s =
    ((has_recent_auth-IsConfirmed settings now s, λ c. ground arith), λ h. ground arith)
