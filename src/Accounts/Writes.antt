-- ===== src/Accounts/Writes.antt =====
-- What a transaction that changes accounts does with the tables of users and of sessions.
use configdeck.Accounts.Guards.{ManagedUser, UserCreateInput, PasswordService, normalize_email}
use configdeck.Accounts.Manage.{
  may_lose_role, may_become, update_role_commit, set_active_commit, reset_totp_commit,
  set_service_access, change_grant,
}
use configdeck.Accounts.Passwords.{
  create_user, created_account, is_taken, change_own_password_commit, reset_password_commit,
}
use configdeck.Accounts.{
  Account, Db, is_member, update_users, bump, revoke_sessions, revoke_and_audit, insert_audit,
  delete_grants,
}
use configdeck.Auth.Session.{AuthenticatedSession}
use configdeck.Errors.{ok, Result-cases}
use configdeck.Prelude.{
  ℕ, ◌≡◌, Bool, true, false, none, ◌&&◌, ◌++◌, ◌∷◌, [], any, any_mono, ◌||◌, Option-cases, List,
  Text, eq_text, arith, update_where, Bool-cases, ◌⊎◌, inl, inr,
}
use configdeck.Users.{Role, from_str}
use configdeck.Prelude.Space.{trim}

-- One statement changes accounts, and the sessions of `user_id` end.
pub record IsWrite (t : Account → Bool) (f : Account → Account) (user_id : Text) (db db' : Db)
    : Type 0 where
  pub users : db'.users ≡ update_where t (λ a. bump (f a)) db.users
  pub sessions : db'.sessions ≡ revoke_sessions user_id db.sessions

-- Neither table changes.
pub record IsQuiet (db db' : Db) : Type 0 where
  pub users : db'.users ≡ db.users
  pub sessions : db'.sessions ≡ db.sessions

update_users-eq-ok :
    (t : Account → Bool) (f : Account → Account) (users : List Account) {r : List Account × ℕ}
    → update_users t f users ≡ ok r
    → r.0 ≡ update_where t (λ a. bump (f a)) users
unfolding update_users
update_users-eq-ok t f users h = ground arith

abbrev pub new_password : Text → Bool → Text → Account → Account
new_password replacement must now a = record a {
  password_hash = replacement;
  password_changed_at = now;
  must_change_password = must;
  updated_at = now;
}

abbrev pub new_role : Role → Text → Account → Account
new_role role now a = record a { role = role; updated_at = now }

abbrev pub new_status : Bool → Text → Account → Account
new_status active now a = record a { active = active; updated_at = now }

abbrev pub without_totp : Text → Account → Account
without_totp now a = record a {
  totp_secret = none;
  totp_enabled_at = none;
  totp_last_used_step = none;
  updated_at = now;
}

module _ (s : AuthenticatedSession) (now : Text) (db : Db) {db' : Db} where
  pub change_own_password_commit-IsWrite :
      (replacement : Text)
      → change_own_password_commit s replacement now db ≡ ok db'
      → IsWrite (λ a. eq_text a.id s.user.id) (new_password replacement false now) s.user.id db db'
  unfolding change_own_password_commit insert_audit
  change_own_password_commit-IsWrite replacement h =
      let t = λ (a : Account). eq_text a.id s.user.id in
      elim (Result-cases (update_users t (new_password replacement false now) db.users)) [
        | inr (e, p) ↦ absurd (ground arith)
        | inl (u, p) ↦ record {
          users =
              ground (arith, update_users-eq-ok t (new_password replacement false now) db.users p);
          sessions = ground arith;
        }
      ]

  pub reset_password_commit-IsWrite :
      (user_id replacement : Text)
      → reset_password_commit s user_id replacement now db ≡ ok db'
      → IsWrite
          (is_member user_id s.user.organization_id)
          (new_password replacement true now)
          user_id
          db
          db'
  unfolding reset_password_commit revoke_and_audit
  reset_password_commit-IsWrite user_id replacement h =
      let t = is_member user_id s.user.organization_id in
      let f = new_password replacement true now in
      elim (Result-cases (update_users t f db.users)) [
        | inr (e, p) ↦ absurd (ground arith)
        | inl (u, p) ↦ record {
          users = ground (arith, update_users-eq-ok t f db.users p);
          sessions = ground arith;
        }
      ]

  pub update_role_commit-IsWrite :
      (user_id : Text) (target : ManagedUser) (role : Role)
      → update_role_commit s user_id target role now db ≡ ok db'
      → IsWrite
          (λ a. is_member user_id s.user.organization_id a && may_lose_role db.users role a)
          (new_role role now)
          user_id
          db
          db'
  unfolding update_role_commit revoke_and_audit delete_grants
  update_role_commit-IsWrite user_id target role h =
      let t = λ (a : Account).
        is_member user_id s.user.organization_id a && may_lose_role db.users role a in
      let f = new_role role now in
      elim (Result-cases (update_users t f db.users)) [
        | inr (e, p) ↦ absurd (ground arith)
        | inl (u, p) ↦ record {
          users = ground (arith, update_users-eq-ok t f db.users p);
          sessions = ground arith;
        }
      ]

  pub set_active_commit-IsWrite :
      (user_id : Text) (active : Bool)
      → set_active_commit s user_id active now db ≡ ok db'
      → IsWrite
          (λ a. is_member user_id s.user.organization_id a && may_become db.users active a)
          (new_status active now)
          user_id
          db
          db'
  unfolding set_active_commit revoke_and_audit delete_grants
  set_active_commit-IsWrite user_id active h =
      let t = λ (a : Account).
        is_member user_id s.user.organization_id a && may_become db.users active a in
      let f = new_status active now in
      elim (Result-cases (update_users t f db.users)) [
        | inr (e, p) ↦ absurd (ground arith)
        | inl (u, p) ↦ record {
          users = ground (arith, update_users-eq-ok t f db.users p);
          sessions = ground arith;
        }
      ]

  pub reset_totp_commit-IsWrite :
      (user_id : Text)
      → reset_totp_commit s user_id now db ≡ ok db'
      → IsWrite (is_member user_id s.user.organization_id) (without_totp now) user_id db db'
  unfolding reset_totp_commit revoke_and_audit
  reset_totp_commit-IsWrite user_id h =
      let t = is_member user_id s.user.organization_id in
      let f = without_totp now in
      elim (Result-cases (update_users t f db.users)) [
        | inr (e, p) ↦ absurd (ground arith)
        | inl (u, p) ↦ record {
          users = ground (arith, update_users-eq-ok t f db.users p);
          sessions = ground arith;
        }
      ]

  pub set_service_access-writes :
      (service_id user_id : Text) (granted : Bool)
      → set_service_access s service_id user_id granted now db ≡ ok db'
      → IsQuiet db db'
        ⊎ IsWrite (λ a. eq_text a.id user_id) (λ a. record a { updated_at = now }) user_id db db'
  unfolding set_service_access insert_audit
  set_service_access-writes service_id user_id granted h =
      let t = λ (a : Account). eq_text a.id user_id in
      let f = λ (a : Account). record a { updated_at = now } in
      elim (Bool-cases (change_grant user_id service_id granted db.grants).1) [
        | inr c ↦ inl (record { users = ground arith; sessions = ground arith })
        | inl c ↦ elim (Result-cases (update_users t f db.users)) [
          | inr (e, p) ↦ absurd (ground arith)
          | inl (u, p) ↦ inr (record {
            users = ground (arith, update_users-eq-ok t f db.users p);
            sessions = ground arith;
          })
        ]
      ]

-- A new account is added, under an identifier that is free.
pub record IsGrown (new : Account) (db db' : Db) : Type 0 where
  pub fresh : any (λ a. eq_text a.id new.id) db.users ≡ false
  pub users : db'.users ≡ db.users ++ (new ∷ [])
  pub sessions : db'.sessions ≡ db.sessions

id_free :
    (new : Account) (users : List Account)
    → is_taken new users ≡ false
    → any (λ a. eq_text a.id new.id) users ≡ false
id_free new users h = elim (Bool-cases (any (λ a. eq_text a.id new.id) users)) [
  | inr e ↦ e
  | inl e ↦ absurd (
      ground (
        arith,
        any_mono (λ a. eq_text a.id new.id)
            (λ a. eq_text a.id new.id || eq_text a.email_normalized new.email_normalized)
            (λ a p. ground arith) users e,
      ))
]

pub create_user-IsGrown :
    (to_lowercase : Text → Text) (passwords : PasswordService) (s : AuthenticatedSession)
    (input : UserCreateInput) (user_id now : Text) (db : Db) {db' : Db}
    → create_user to_lowercase passwords s input user_id now db ≡ ok db'
    → (new : Account) × IsGrown new db db'
unfolding create_user insert_audit
create_user-IsGrown to_lowercase passwords s input user_id now db h =
    elim (Result-cases (normalize_email to_lowercase input.email)) [
      | inr (e, p) ↦ absurd (ground arith)
      | inl (email, p) ↦ elim (Option-cases (from_str input.role)) [
        | inl q ↦ absurd (ground arith)
        | inr (role, q) ↦ elim (Option-cases (passwords.hash input.initial_password)) [
          | inl r ↦ absurd (ground arith)
          | inr (hashed, r) ↦
              let new = created_account s user_id (trim input.email) email hashed role now in
              (
                new,
                record {
                  fresh = id_free new db.users (ground arith);
                  users = ground arith;
                  sessions = ground arith;
                },
              )
        ]
      ]
    ]
