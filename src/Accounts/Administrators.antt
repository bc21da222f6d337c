-- ===== src/Accounts/Administrators.antt =====
-- An organization with an active administrator keeps one, whatever its managers do.
use configdeck.Accounts.Manage.{may_lose_role, may_become}
use configdeck.Accounts.Steps.{
  Step, creating, changing_password, resetting_password, changing_role, changing_status,
  dropping_grants, resetting_totp, changing_access, Reach, here, next,
}
use configdeck.Accounts.Writes.{
  IsWrite, new_password, new_role, new_status, without_totp, change_own_password_commit-IsWrite,
  reset_password_commit-IsWrite, update_role_commit-IsWrite, set_active_commit-IsWrite,
  reset_totp_commit-IsWrite, set_service_access-writes, create_user-IsGrown,
}
use configdeck.Accounts.{
  Account, Db, is_administrator, is_member, has_other_administrator, bump, delete_grants,
}
use configdeck.Prelude.{
  ◌≡◌, Bool, true, false, not, ◌&&◌, List, [], ◌∷◌, Text, eq_text, eq_text_iff, arith, any,
  any_mono, any-append, any-update_where, any-update_where_other, update_where, Bool-cases, inl,
  inr,
}
use configdeck.Users.{Role}

-- Who may manage the organization.
abbrev is_active_administrator : Text → Account → Bool
is_active_administrator organization_id a =
    eq_text a.organization_id organization_id && is_administrator a.role && a.active

abbrev pub HasAdministrator : Text → List Account → Type 0
HasAdministrator organization_id users = any (is_active_administrator organization_id) users ≡ true

module _ (organization_id : Text) where
  -- The guard of the two statements that take rights away: the row that it passes for a lack of
  -- rights is no administrator, so a row that had them has another beside it.
  other_stays :
      (users : List Account) (guard : Account → Bool) (user_id home : Text)
      → ((a : Account)
          → is_active_administrator organization_id a ≡ true
          → guard a ≡ true
          → has_other_administrator users a ≡ true)
      → (a : Account) → is_active_administrator organization_id a ≡ true
      → is_member user_id home a && guard a ≡ true
      → any
          (λ b.
            is_active_administrator organization_id b && not (is_member user_id home b && guard b))
          users
        ≡ true
  unfolding has_other_administrator
  other_stays users guard user_id home g a p t =
      any_mono
        (λ other.
          eq_text other.organization_id a.organization_id
          && is_administrator other.role
          && other.active
          && not (eq_text other.id a.id))
        (λ b.
          is_active_administrator organization_id b && not (is_member user_id home b && guard b))
        (λ b e. ground (
          arith,
          eq_text_iff a.organization_id organization_id,
          eq_text_iff b.organization_id a.organization_id,
          eq_text_iff a.id user_id,
          eq_text_iff b.id a.id,
          eq_text_iff b.id user_id,
          eq_text_iff b.organization_id organization_id,
        ))
        users (g a p (ground arith))

  kept :
      (t : Account → Bool) (f : Account → Account) (users : List Account)
      → ((a : Account)
          → is_active_administrator organization_id a ≡ true
          → is_active_administrator organization_id (f a) ≡ true)
      → HasAdministrator organization_id users
      → HasAdministrator organization_id (update_where t (λ a. bump (f a)) users)
  kept t f users k b =
      any-update_where (is_active_administrator organization_id) t (λ a. bump (f a))
        (λ a p u. k a p) users b

  -- A statement under such a guard keeps an active administrator.
  guarded :
      (users : List Account) (guard : Account → Bool) (f : Account → Account) (user_id home : Text)
      → ((a : Account)
          → is_active_administrator organization_id a ≡ true
          → guard a ≡ true
          → has_other_administrator users a ≡ true)
      → HasAdministrator organization_id users
      → HasAdministrator organization_id
          (update_where (λ a. is_member user_id home a && guard a) (λ a. bump (f a)) users)
  guarded users guard f user_id home g b =
      any-update_where_other (is_active_administrator organization_id)
        (λ a. is_member user_id home a && guard a) (λ a. bump (f a)) users
        (other_stays users guard user_id home g) b

  role_kept :
      (role : Role) (user_id home now : Text) (users : List Account)
      → HasAdministrator organization_id users
      → HasAdministrator organization_id (
          update_where
            (λ a. is_member user_id home a && may_lose_role users role a)
            (λ a. bump (new_role role now a))
            users)
  role_kept role user_id home now users b = elim (Bool-cases (is_administrator role)) [
    | inl e ↦ kept _ (new_role role now) users (λ a p. ground arith) b
    | inr e ↦
        guarded users (may_lose_role users role) (new_role role now) user_id home
          (λ a p g. ground arith) b
  ]

  status_kept :
      (active : Bool) (user_id home now : Text) (users : List Account)
      → HasAdministrator organization_id users
      → HasAdministrator organization_id (
          update_where
            (λ a. is_member user_id home a && may_become users active a)
            (λ a. bump (new_status active now a))
            users)
  status_kept active user_id home now users b = elim (Bool-cases active) [
    | inl e ↦ kept _ (new_status active now) users (λ a p. ground arith) b
    | inr e ↦
        guarded users (may_become users active) (new_status active now) user_id home
          (λ a p g. ground arith) b
  ]

  written :
      {t : Account → Bool} {f : Account → Account} {user_id : Text} {db db' : Db}
      → IsWrite t f user_id db db'
      → HasAdministrator organization_id (update_where t (λ a. bump (f a)) db.users)
      → HasAdministrator organization_id db'.users
  written w b = rw w.users b

  Step-HasAdministrator :
      {db db' : Db}
      → Step db db'
      → HasAdministrator organization_id db.users
      → HasAdministrator organization_id db'.users
  unfolding delete_grants
  Step-HasAdministrator {db} (changing_password s replacement now h) b =
      written (change_own_password_commit-IsWrite s now db replacement h)
        (kept _ (new_password replacement false now) db.users (λ a e. e) b)
  Step-HasAdministrator {db} (resetting_password s user_id replacement now h) b =
      written (reset_password_commit-IsWrite s now db user_id replacement h)
        (kept _ (new_password replacement true now) db.users (λ a e. e) b)
  Step-HasAdministrator {db} (changing_role s user_id target role now h) b =
      written (update_role_commit-IsWrite s now db user_id target role h)
        (role_kept role user_id s.user.organization_id now db.users b)
  Step-HasAdministrator {db} (changing_status s user_id active now h) b =
      written (set_active_commit-IsWrite s now db user_id active h)
        (status_kept active user_id s.user.organization_id now db.users b)
  Step-HasAdministrator {db} (dropping_grants user_id h) b = ground arith
  Step-HasAdministrator {db} (resetting_totp s user_id now h) b =
      written (reset_totp_commit-IsWrite s now db user_id h)
        (kept _ (without_totp now) db.users (λ a e. e) b)
  Step-HasAdministrator {db} (creating l w s input user_id now h) b =
      let (new, g) = create_user-IsGrown l w s input user_id now db h in
      rw g.users (
        ground (arith, b, any-append (is_active_administrator organization_id) db.users (new ∷ [])))
  Step-HasAdministrator {db} (changing_access s service_id user_id granted now h) b =
      elim (set_service_access-writes s now db service_id user_id granted h) [
        | inl q ↦ rw q.users b
        | inr w ↦ written w (kept _ (λ a. record a { updated_at = now }) db.users (λ a e. e) b)
      ]

  -- An organization that has an active administrator has one after every sequence of created users,
  -- changed and reset passwords, changed roles, statuses and grants and TOTP resets, by anybody,
  -- and on whatever they had read before.
  pub Reach-HasAdministrator :
      {db db' : Db}
      → Reach db db'
      → HasAdministrator organization_id db.users
      → HasAdministrator organization_id db'.users
  Reach-HasAdministrator here b = b
  Reach-HasAdministrator (next r step) b = Step-HasAdministrator step (Reach-HasAdministrator r b)
