-- ===== src/Tests/Sessions.antt =====
-- A session that is confirmed, and one whose confirmation is too old.
use configdeck.Auth.Session.Laws.{IsConfirmed, has_recent_auth_iff}
use configdeck.Auth.Session.{
  AuthenticatedSession, SessionSettings, full, standard, high_impact, minutes, has_recent_auth,
}
use configdeck.Prelude.Int.{pos}
use configdeck.Prelude.{ℕ, ◌≡◌, ◌↔◌, refl, true, false, some, codes}
use configdeck.Users.{operator}

abbrev pub confirmed_at : ℕ
confirmed_at = minutes 1000

abbrev pub an_operator : AuthenticatedSession
an_operator = record {
  id = codes "s";
  token_hash = codes "t";
  csrf_token_hash = codes "c";
  user = record {
    id = codes "u";
    organization_id = codes "o";
    email = codes "u@example.org";
    role = operator;
    auth_version = pos 1;
    totp_enabled = true;
    must_change_password = false;
  };
  authentication_state = full;
  privileged_authenticated_at = some confirmed_at;
  privileged_auth_level = some high_impact;
}

abbrev pub settings : SessionSettings
settings = record {
  idle_timeout = minutes 15;
  absolute_timeout = minutes 480;
  recent_auth_timeout = minutes 5;
}

after_a_minute : has_recent_auth settings (minutes 1001) an_operator high_impact ≡ true
unfolding has_recent_auth
after_a_minute = refl

after_three_minutes : has_recent_auth settings (minutes 1003) an_operator high_impact ≡ false
unfolding has_recent_auth
after_three_minutes = refl

has_recent_auth_iff_example :
    ((has_recent_auth settings (minutes 1001) an_operator high_impact ≡ true)
      ↔ IsConfirmed settings (minutes 1001) an_operator)
    × (has_recent_auth settings (minutes 1001) an_operator high_impact ≡ true
        → has_recent_auth settings (minutes 1001) an_operator standard ≡ true)
has_recent_auth_iff_example = has_recent_auth_iff settings (minutes 1001) an_operator
