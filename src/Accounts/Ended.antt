-- ===== src/Accounts/Ended.antt =====
-- A change of an account ends the sessions that were opened under it.
use configdeck.Accounts.Steps.{
  Step, creating, changing_password, resetting_password, changing_role, changing_status,
  dropping_grants, resetting_totp, changing_access, Reach, here, next,
}
use configdeck.Accounts.Writes.{
  IsWrite, IsQuiet, change_own_password_commit-IsWrite, reset_password_commit-IsWrite,
  update_role_commit-IsWrite, set_active_commit-IsWrite, reset_totp_commit-IsWrite,
  set_service_access-writes, create_user-IsGrown,
}
use configdeck.Accounts.{Account, Db, bump, delete_grants, revoke_sessions, store_of}
use configdeck.Auth.Session.Store.{SessionRow, load}
use configdeck.Auth.Session.{SessionSettings}
use configdeck.Errors.{err, unauthorized}
use configdeck.Prelude.Tables.{Table}
use configdeck.Prelude.{
  ℕ, ◌≡◌, refl, Bool, true, [], ◌∷◌, Text, eq_text, eq_text_iff, arith, Option, some, find,
  find-update_where, find-append, ◌∙◌, Bool-cases, Option-cases, ◌⊎◌, inl, inr,
}

abbrev pub account : Text → Db → Option Account
account id db = find (λ a. eq_text a.id id) db.users

module _ (id : Text) where
  AreRevoked : Table SessionRow → Type 0
  AreRevoked sessions =
      (h : Text) (row : SessionRow)
      → sessions h ≡ some row
      → eq_text row.user_id id ≡ true
      → row.revoked ≡ true

  revoke_sessions-AreRevoked :
      (user_id : Text) (sessions : Table SessionRow)
      → (eq_text user_id id ≡ true) ⊎ AreRevoked sessions
      → AreRevoked (revoke_sessions user_id sessions)
  unfolding revoke_sessions AreRevoked
  revoke_sessions-AreRevoked user_id sessions c h row e own = elim (Option-cases (sessions h)) [
    | inl p ↦ absurd (ground arith)
    | inr (r, p) ↦ elim (Bool-cases (eq_text r.user_id user_id)) [
      | inl q ↦ ground arith
      | inr q ↦ elim c [
        | inl same ↦ absurd (
            ground (
              arith,
              eq_text_iff user_id id,
              eq_text_iff r.user_id id,
              eq_text_iff r.user_id user_id,
            ))
        | inr all_revoked ↦ ground (arith, all_revoked h r p (ground arith))
      ]
    ]
  ]

  -- The account is as it was, or its sessions are over.
  AreOver : Account → Db → Type 0
  unfolding AreRevoked
  AreOver a db = (account id db ≡ some a) ⊎ AreRevoked db.sessions

  written :
      (t : Account → Bool) (f : Account → Account) (user_id : Text) (a : Account) {db db' : Db}
      → ((b : Account) → t b ≡ true → (eq_text b.id user_id ≡ true) × ((f b).id ≡ b.id))
      → IsWrite t f user_id db db'
      → AreOver a db
      → AreOver a db'
  unfolding AreOver
  written t f user_id a {db} {db'} k w (inr r) =
      inr (rw w.sessions (revoke_sessions-AreRevoked user_id db.sessions (inr r)))
  written t f user_id a {db} {db'} k w (inl e) = elim (Bool-cases (eq_text user_id id)) [
    | inl same ↦ inr (rw w.sessions (revoke_sessions-AreRevoked user_id db.sessions (inl same)))
    | inr other ↦ inl (
        rw w.users (
          find-update_where (λ b. eq_text b.id id) t (λ b. bump (f b))
            (λ b u. (
              ground (arith, k b u, eq_text_iff b.id user_id),
              ground (arith, k b u, eq_text_iff b.id user_id),
            ))
            db.users
          ∙ e))
  ]

  quiet : (a : Account) {db db' : Db} → IsQuiet db db' → AreOver a db → AreOver a db'
  unfolding AreOver
  quiet a q (inl e) = inl (rw q.users e)
  quiet a q (inr r) = inr (rw q.sessions r)

  Step-AreOver : (a : Account) {db db' : Db} → Step db db' → AreOver a db → AreOver a db'
  unfolding delete_grants AreOver
  Step-AreOver a {db} (changing_password s replacement now h) o =
      written _ _ s.user.id a (λ b t. (t, refl))
        (change_own_password_commit-IsWrite s now db replacement h) o
  Step-AreOver a {db} (resetting_password s user_id replacement now h) o =
      written _ _ user_id a (λ b t. (ground arith, refl))
        (reset_password_commit-IsWrite s now db user_id replacement h) o
  Step-AreOver a {db} (changing_role s user_id target role now h) o =
      written _ _ user_id a (λ b t. (ground arith, refl))
        (update_role_commit-IsWrite s now db user_id target role h) o
  Step-AreOver a {db} (changing_status s user_id active now h) o =
      written _ _ user_id a (λ b t. (ground arith, refl))
        (set_active_commit-IsWrite s now db user_id active h) o
  Step-AreOver a {db} {db'} (dropping_grants user_id h) o =
      quiet a {db = db} {db' = db'} (record { users = ground arith; sessions = ground arith }) o
  Step-AreOver a {db} (resetting_totp s user_id now h) o =
      written _ _ user_id a (λ b t. (ground arith, refl))
        (reset_totp_commit-IsWrite s now db user_id h) o
  Step-AreOver a {db} (creating l w s input user_id now h) (inl e) =
      let (new, g) = create_user-IsGrown l w s input user_id now db h in
      inl (rw g.users (find-append (λ b. eq_text b.id id) db.users (new ∷ []) e))
  Step-AreOver a {db} (creating l w s input user_id now h) (inr r) =
      let (new, g) = create_user-IsGrown l w s input user_id now db h in inr (rw g.sessions r)
  Step-AreOver a {db} (changing_access s service_id user_id granted now h) o =
      elim (set_service_access-writes s now db service_id user_id granted h) [
        | inl q ↦ quiet a q o
        | inr w ↦ written _ _ user_id a (λ b t. (t, refl)) w o
      ]

  Reach-AreOver : (a : Account) {db db' : Db} → Reach db db' → AreOver a db → AreOver a db'
  Reach-AreOver a here o = o
  Reach-AreOver a (next r step) o = Step-AreOver a step (Reach-AreOver a r o)

  load_revoked :
      (hash : Text → Text) (settings : SessionSettings) (now : ℕ) (raw : Text) (db : Db)
      (row : SessionRow)
      → AreRevoked db.sessions
      → db.sessions (hash raw) ≡ some row
      → eq_text row.user_id id ≡ true
      → (load hash settings now raw (store_of db)).0 ≡ err unauthorized
  unfolding load AreRevoked
  load_revoked hash settings now raw db row r e own =
      elim (Option-cases ((store_of db).users row.user_id)) [
        | inl p ↦ ground arith
        | inr (user, p) ↦ ground (arith, r (hash raw) row e own)
      ]

-- However accounts are managed, the row of an account is found exactly as it was, or every token of
-- a session of its user is refused, at all times: whatever changed its password, role, status, TOTP
-- or version, the sessions that were open under it are over. Grants are rows of their own; where
-- only they change, the row of the account is as it was.
pub Reach-ends :
    (hash : Text → Text) (settings : SessionSettings) {db db' : Db} (a : Account)
    → Reach db db'
    → account a.id db ≡ some a
    → (account a.id db' ≡ some a)
      ⊎ ((now : ℕ) (raw : Text) (row : SessionRow)
          → db'.sessions (hash raw) ≡ some row
          → row.user_id ≡ a.id
          → (load hash settings now raw (store_of db')).0 ≡ err unauthorized)
unfolding AreOver
Reach-ends hash settings {db} {db'} a r e = elim (Reach-AreOver a.id a r (inl e)) [
  | inl same ↦ inl same
  | inr over ↦ inr (λ now raw row found own.
      load_revoked a.id hash settings now raw db' row over found
        ((eq_text_iff row.user_id a.id).1 own))
]
