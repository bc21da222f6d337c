-- ===== src/Tests/Visits.antt =====
-- A session created, loaded and revoked.
use configdeck.Auth.Session.Store.Live.{
  IsLive, load_iff, IsBounded, creating, Move-IsBounded, load-revoke,
}
use configdeck.Accounts.{revoke_sessions}
use configdeck.Auth.Session.Store.Refused.{Visits, here, next, ending, managing, load_stays_refused}
use configdeck.Auth.Session.Store.Rotate.{rotate, claimable, set_level, rotate_once}
use configdeck.Auth.Session.Store.{
  Store, UserRow, is_dead, seen_row, load_row, load, revoke, create, set_session, new_row,
  SessionRow,
}
use configdeck.Auth.Session.{
  SessionUser, AuthenticatedSession, AuthenticationState, PrivilegedAuthLevel, high_impact, full,
  minutes,
}
use configdeck.Errors.{ok, err, unauthorized}
use configdeck.Prelude.Int.{pos}
use configdeck.Prelude.Tables.{put}
use configdeck.Prelude.{
  ℕ, ltb, Option, ◌≡◌, ◌↔◌, refl, true, false, none, some, ◌≤◌, Text, codes, eq_text,
}
use configdeck.Tests.Sessions.{settings}
use configdeck.Users.{operator}

-- In place of SHA-256.
abbrev plain : Text → Text
plain text = text

abbrev user : SessionUser
user = record {
  id = codes "u";
  organization_id = codes "o";
  email = codes "u@example.org";
  role = operator;
  auth_version = pos 1;
  totp_enabled = true;
  must_change_password = false;
}

abbrev the_user : UserRow
the_user = record {
  id = codes "u";
  organization_id = codes "o";
  email = codes "u@example.org";
  role = operator;
  auth_version = pos 1;
  active = true;
  totp_enabled = true;
  must_change_password = false;
}

abbrev empty : Store
empty = record { sessions = λ h. none; users = put (λ h. none) (codes "u") the_user }

abbrev one : Store
one =
    set_session empty (codes "token")
      (new_row plain settings (minutes 10) (codes "s") (codes "token") (codes "csrf") user full)

run_create :
    create plain settings (minutes 10) (codes "s") (codes "token") (codes "csrf") user full empty
    ≡ ok one
unfolding create
run_create = refl

abbrev expected : AuthenticatedSession
expected = record {
  id = codes "s";
  token_hash = codes "token";
  csrf_token_hash = codes "csrf";
  user = user;
  authentication_state = full;
  privileged_authenticated_at = none;
  privileged_auth_level = none;
}

run_load : (load plain settings (minutes 20) (codes "token") one).0 ≡ ok expected
unfolding load load_row is_dead seen_row eq_text
run_load = refl

run_late : (load plain settings (minutes 26) (codes "token") one).0 ≡ err unauthorized
unfolding load load_row is_dead seen_row eq_text
run_late = refl

load_iff_example :
    ((load plain settings (minutes 20) (codes "token") one).0 ≡ ok expected)
    ↔ IsLive plain settings (minutes 20) (codes "token") one expected
load_iff_example = load_iff plain settings (minutes 20) (codes "token") one expected

load-revoke_example :
    (load plain settings (minutes 11) (codes "token") (revoke plain settings (codes "token") one)).0
    ≡ err unauthorized
load-revoke_example = load-revoke plain settings (minutes 11) (codes "token") one

empty-IsBounded : IsBounded plain settings empty
empty-IsBounded h row e = cc

abbrev the_row : SessionRow
the_row = new_row plain settings (minutes 10) (codes "s") (codes "token") (codes "csrf") user full

there : one.sessions (codes "token") ≡ some the_row
unfolding eq_text
there = refl

the_user_there : one.users (codes "u") ≡ some the_user
unfolding eq_text
the_user_there = refl

Move-IsBounded_example : the_row.idle_expires_at ≤ the_row.absolute_expires_at
Move-IsBounded_example =
    Move-IsBounded plain settings
      (creating (minutes 10) (codes "s") (codes "token") (codes "csrf") user full run_create)
      empty-IsBounded (codes "token") the_row there

-- In between, the user's sessions are ended, another session is created, and the user is deleted.
abbrev later_store : Store
later_store =
    let left = (load plain settings (minutes 26) (codes "token") one).1 in
    record left { sessions = revoke_sessions (codes "u") left.sessions; users = λ id. none }

afterwards :
    Visits plain settings
      (λ a b. ltb b a)
      (load plain settings (minutes 26) (codes "token") one).1
      later_store
afterwards = next (next here (ending (codes "u"))) (managing (λ id. none))

load_stays_refused_example :
    (load plain settings (minutes 11) (codes "token") later_store).0 ≡ err unauthorized
load_stays_refused_example =
    load_stays_refused plain settings (λ a b. ltb b a) (minutes 26) (minutes 11) (codes "token") one
      the_row the_user unauthorized there the_user_there run_late afterwards

-- the replacement of the session by one of high impact
run_rotate :
    (rotate plain settings
      (λ a b. ltb b a)
      (minutes 11)
      (minutes 11)
      expected
      user
      full
      (some high_impact)
      (codes "s2")
      (codes "token2")
      (codes "csrf2")
      one).0
    ≡ ok tt
unfolding rotate claimable create set_level eq_text
run_rotate = refl

rotate_once_example :
    let st' =
      (rotate plain settings
        (λ a b. ltb b a)
        (minutes 11)
        (minutes 11)
        expected
        user
        full
        (some high_impact)
        (codes "s2")
        (codes "token2")
        (codes "csrf2")
        one).1 in
    ((at : ℕ) (token : Text)
      → token ≡ codes "token"
      → (load plain settings at token st').0 ≡ err unauthorized)
    × ((at at' : ℕ) (again : SessionUser) (state' : AuthenticationState)
          (level' : Option PrivilegedAuthLevel) (id' raw' csrf' : Text)
        → codes "u" ≡ again.id
        → rotate plain settings
            (λ a b. ltb b a)
            at
            at'
            expected
            again
            state'
            level'
            id'
            raw'
            csrf'
            st'
          ≡ (err unauthorized, st'))
rotate_once_example =
    rotate_once plain settings (λ a b. ltb b a) (minutes 11) (minutes 11) expected user full
      (some high_impact) (codes "s2") (codes "token2") (codes "csrf2") one run_rotate
