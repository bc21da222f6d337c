-- ===== src/Auth/Totp/Consume.antt =====
-- `verify_and_consume_totp` of src/auth/service.rs: the step of an accepted code is written to
-- the user's row by one conditional `UPDATE`.
use configdeck.Auth.Totp.Window.{Hit, verify_at-eq-ok}
use configdeck.Auth.Totp.{verify_at, Result, ok, err, period_seconds}
use configdeck.Prelude.Int.{ℤ, ltb_ℤ, eqb_ℤ, div_euclid}
use configdeck.Prelude.Tables.{Table, put, row_where}
use configdeck.Prelude.{
  ℕ, ◌≡◌, ◌⊎◌, inl, inr, refl, Bool, true, false, Option, none, some, List, [], ◌∷◌, Text, arith,
  if◌then◌else◌, Bool-cases, Option-cases, ◌&&◌, eq_text, eq_text_iff, eq_text_refl,
}

-- The columns that the operation reads. Times are not interpreted here: whether a second factor
-- is enrolled is whether `totp_enabled_at` is there.
pub record UserAuthRow : Type 0 where
  pub id : Text
  pub active : Bool
  pub auth_version : ℤ
  pub totp_enabled_at : Option Text
  pub totp_last_used_step : Option ℤ

abbrev is_some {ℓ} : {A : Type ℓ} → Option A → Bool
is_some none = false
is_some (some a) = true

-- `totp_last_used_step IS NULL OR totp_last_used_step < ?`
abbrev pub is_below : Option ℤ → ℤ → Bool
is_below none step = true
is_below (some last) step = ltb_ℤ last step

-- the `WHERE` clause behind `id = ?`
unfoldable pub claimable : UserAuthRow → ℤ → UserAuthRow → Bool
claimable user step row =
    is_below row.totp_last_used_step step
    && row.active
    && eqb_ℤ row.auth_version user.auth_version
    && is_some row.totp_enabled_at

-- What `verify_at` said, written to the table `users`. The result tells whether the code was
-- consumed; every failure is `AppError::Authentication`.
unfoldable pub consume_step : UserAuthRow → Result → Table UserAuthRow → Bool × Table UserAuthRow
unfolding claimable
consume_step user (err e) users = (false, users)
consume_step user (ok step) users = elim (row_where users user.id (claimable user step)) [
  | none ↦ (false, users)
  | some row ↦ (true, put users user.id (record row { totp_last_used_step = some step }))
]

-- `seed` is the decrypted secret, or nothing where decryption failed; `user` was read earlier, and
-- the table may have changed since.
unfoldable pub verify_and_consume_totp :
    (List ℕ → List ℕ → List ℕ)
    → Option (List ℕ)
    → UserAuthRow
    → Text
    → ℤ
    → Table UserAuthRow
    → Bool × Table UserAuthRow
unfolding consume_step
verify_and_consume_totp hmac none user code now users = (false, users)
verify_and_consume_totp hmac (some seed) user code now users =
    consume_step user (verify_at hmac seed code now user.totp_last_used_step) users

unfoldable pub last_step : Table UserAuthRow → Text → Option ℤ
last_step users id = elim (users id) [ none ↦ none | some row ↦ row.totp_last_used_step ]

-- One call of the operation, with the row that it had read before.
pub record Attempt : Type 0 where
  pub seed : Option (List ℕ)
  pub user : UserAuthRow
  pub code : Text
  pub now : ℤ

module _ (hmac : List ℕ → List ℕ → List ℕ) where
  abbrev pub attempt : Attempt → Table UserAuthRow → Bool × Table UserAuthRow
  attempt a users = verify_and_consume_totp hmac a.seed a.user a.code a.now users

  -- The steps that a sequence of attempts consumes for one user. The attempts may be anybody's,
  -- and each may go by a row that is out of date.
  unfoldable pub consumed : Text → List Attempt → Table UserAuthRow → List ℤ
  consumed id [] users = []
  consumed id (a ∷ rest) users =
      let (done, users') = attempt a users in
      let later = consumed id rest users' in
      if done && eq_text a.user.id id
      then elim (last_step users' id) [ none ↦ later | some step ↦ step ∷ later ]
      else later

  abbrev Outcome : Bool × Table UserAuthRow → Table UserAuthRow → Text → Text → Type 0
  Outcome r users actor id =
      (((r.0 && eq_text actor id) ≡ false) × (last_step r.1 id ≡ last_step users id))
      ⊎ ((step : ℤ) × ((r.0 && eq_text actor id) ≡ true)
          × (last_step r.1 id ≡ some step)
          × (is_below (last_step users id) step ≡ true))

  consume_step-Outcome :
      (user : UserAuthRow) (r : Result) (users : Table UserAuthRow) (id : Text)
      → Outcome (consume_step user r users) users user.id id
  unfolding consume_step last_step
  consume_step-Outcome user (err e) users id = inl (refl, refl)
  consume_step-Outcome user (ok step) users id =
      elim (Option-cases (row_where users user.id (claimable user step))) [
        | inl p ↦ inl (ground arith, ground arith)
        | inr (row, p) ↦ elim (Bool-cases (eq_text user.id id)) [
          | inl e ↦ inr (step, ground arith, ground arith, ground (arith, eq_text_iff user.id id))
          | inr e ↦ inl (ground arith, ground arith)
        ]
      ]

  attempt-Outcome :
      (seed : Option (List ℕ)) (user : UserAuthRow) (code : Text) (now : ℤ)
      (users : Table UserAuthRow) (id : Text)
      → Outcome (verify_and_consume_totp hmac seed user code now users) users user.id id
  unfolding verify_and_consume_totp
  attempt-Outcome none user code now users id = inl (refl, refl)
  attempt-Outcome (some seed) user code now users id =
      consume_step-Outcome user (verify_at hmac seed code now user.totp_last_used_step) users id

  abbrev pub IsIncreasing : Option ℤ → List ℤ → Type 0
  IsIncreasing last [] = Unit
  IsIncreasing last (s ∷ rest) = (is_below last s ≡ true) × IsIncreasing (some s) rest

  -- The steps that a user's codes consume grow strictly, from the last step on record, in every
  -- sequence of attempts by anybody, also where each goes by a row that others have changed since:
  -- no step is consumed twice.
  pub consumed-IsIncreasing :
      (id : Text) (attempts : List Attempt) (users : Table UserAuthRow)
      → IsIncreasing (last_step users id) (consumed id attempts users)
  unfolding consumed
  consumed-IsIncreasing id [] users = tt
  consumed-IsIncreasing id (a ∷ rest) users =
      let ih = consumed-IsIncreasing id rest (attempt a users).1 in
      elim (attempt-Outcome a.seed a.user a.code a.now users id) [
        | inl (p, q) ↦ rw p (rw (← q) ih)
        | inr (step, p, q, r) ↦ rw p (rw q (r, rw q at ih))
      ]

  consume_step-consumes :
      (user : UserAuthRow) (r : Result) (users : Table UserAuthRow)
      → (consume_step user r users).0 ≡ true
      → (step : ℤ) × (r ≡ ok step)
        × (last_step (consume_step user r users).1 user.id ≡ some step)
        × (is_below (last_step users user.id) step ≡ true)
        × ((id : Text) → eq_text user.id id ≡ false → (consume_step user r users).1 id ≡ users id)
  unfolding consume_step last_step
  consume_step-consumes user (err e) users h = cc
  consume_step-consumes user (ok step) users h =
      elim (Option-cases (row_where users user.id (claimable user step))) [
        | inl p ↦ absurd (ground arith)
        | inr (row, p) ↦
            let self = eq_text_refl user.id in
            (step, refl, ground arith, ground arith, λ id ne. ground arith)
      ]

  -- An attempt that consumes a step writes one that a typed code hits in the window around its
  -- time, for the row that it had read, and above the step on record, and changes no other row.
  pub verify_and_consume_totp-consumes :
      (seed : Option (List ℕ)) (user : UserAuthRow) (code : Text) (now : ℤ)
      (users : Table UserAuthRow)
      → (verify_and_consume_totp hmac seed user code now users).0 ≡ true
      → (key : List ℕ) × (step : ℤ) × (seed ≡ some key)
        × Hit hmac key code (div_euclid now period_seconds) step
        × (last_step (verify_and_consume_totp hmac seed user code now users).1 user.id ≡ some step)
        × (is_below (last_step users user.id) step ≡ true)
        × ((id : Text)
            → eq_text user.id id ≡ false
            → (verify_and_consume_totp hmac seed user code now users).1 id ≡ users id)
  unfolding verify_and_consume_totp
  verify_and_consume_totp-consumes none user code now users h = cc
  verify_and_consume_totp-consumes (some key) user code now users h =
      let result = verify_at hmac key code now user.totp_last_used_step in
      let (step, accepted, written, above, others) = consume_step-consumes user result users h in
      let hit = verify_at-eq-ok hmac key code now user.totp_last_used_step accepted in
      (key, step, refl, hit.0, written, above, others)
