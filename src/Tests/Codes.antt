-- ===== src/Tests/Codes.antt =====
-- One-time codes. `toy_hmac` puts the low half of the counter at the head of a digest of 20
-- bytes, so that the code of a step is its number.
use configdeck.Auth.Totp.Consume.{
  UserAuthRow, Attempt, last_step, claimable, is_below, consume_step, verify_and_consume_totp,
  consumed, IsIncreasing, consumed-IsIncreasing, verify_and_consume_totp-consumes,
}
use configdeck.Auth.Totp.Window.{Hit, verify_at-eq-ok, verify_at_complete, verify_at-replayed}
use configdeck.Auth.Totp.{
  hotp, truncate, format6, matches, well_formed, is_stale, verify_loop, verify_at, ok, err,
  replayed_code, invalid_code, period_seconds,
}
use configdeck.Crypto.Bytes.{be_bytes}
use configdeck.Prelude.Int.{ℤ, pos, ◌+ℤ◌, ◌≤ℤ◌, div_euclid}
use configdeck.Prelude.Tables.{Table, put}
use configdeck.Prelude.{
  ℕ, ◌≡◌, ◌↔◌, inl, inr, refl, true, false, none, some, List, [], ◌∷◌, Text, codes, eq_text,
}

abbrev toy_hmac : List ℕ → List ℕ → List ℕ
toy_hmac secret (a ∷ b ∷ c ∷ d ∷ e ∷ f ∷ g ∷ h ∷ []) =
    e ∷ f ∷ g ∷ h ∷ 0 ∷ 0 ∷ 0 ∷ 0 ∷ 0 ∷ 0 ∷ 0 ∷ 0 ∷ 0 ∷ 0 ∷ 0 ∷ 0 ∷ 0 ∷ 0 ∷ 0 ∷ 0 ∷ []
toy_hmac secret _ = []

abbrev secret : List ℕ
secret = 7 ∷ []

abbrev typed : Text
typed = codes "000002"

run_fresh : verify_at toy_hmac secret typed (pos 65) none ≡ ok (pos 2)
unfolding verify_at verify_loop matches hotp truncate format6 well_formed be_bytes ◌+ℤ◌ eq_text
run_fresh = refl

run_replayed : verify_at toy_hmac secret typed (pos 65) (some (pos 2)) ≡ err replayed_code
unfolding verify_at verify_loop matches hotp truncate format6 well_formed be_bytes ◌+ℤ◌ eq_text
run_replayed = refl

run_late : verify_at toy_hmac secret typed (pos 120) none ≡ err invalid_code
unfolding verify_at verify_loop matches hotp truncate format6 well_formed be_bytes ◌+ℤ◌ eq_text
run_late = refl

typed-Hit : Hit toy_hmac secret typed (div_euclid (pos 65) period_seconds) (pos 2)
unfolding matches hotp truncate format6 well_formed be_bytes ◌+ℤ◌ eq_text
typed-Hit = record { formed = refl; near = inr (inl refl); matching = refl }

verify_at-eq-ok_example :
    Hit toy_hmac secret typed (div_euclid (pos 65) period_seconds) (pos 2)
    × (is_stale none (pos 2) ≡ false)
verify_at-eq-ok_example = verify_at-eq-ok toy_hmac secret typed (pos 65) none run_fresh

verify_at_complete_example :
    (first : ℤ) × (verify_at toy_hmac secret typed (pos 65) (some (pos 1)) ≡ ok first)
    × (first ≤ℤ pos 2)
verify_at_complete_example =
    verify_at_complete toy_hmac secret typed (pos 65) (some (pos 1)) (pos 2) typed-Hit refl

verify_at-replayed_example :
    (verify_at toy_hmac secret typed (pos 65) (some (pos 2)) ≡ err replayed_code) ↔ (
      ((step : ℤ) × Hit toy_hmac secret typed (div_euclid (pos 65) period_seconds) step)
      × ((step : ℤ)
          → Hit toy_hmac secret typed (div_euclid (pos 65) period_seconds) step
          → is_stale (some (pos 2)) step ≡ true))
verify_at-replayed_example = verify_at-replayed toy_hmac secret typed (pos 65) (some (pos 2))

abbrev a_user : UserAuthRow
a_user = record {
  id = codes "u";
  active = true;
  auth_version = pos 3;
  totp_enabled_at = some (codes "2026-01-01T00:00:00Z");
  totp_last_used_step = some (pos 1);
}

abbrev users : Table UserAuthRow
users = put (λ _. none) (codes "u") a_user

-- The same code three times, always with the row that was read at first.
abbrev attempts : List Attempt
attempts =
    let once : Attempt = record { seed = some secret; user = a_user; code = typed; now = pos 65 } in
    once ∷ once ∷ once ∷ []

consumed_once : consumed toy_hmac (codes "u") attempts users ≡ pos 2 ∷ []
unfolding consumed verify_and_consume_totp consume_step claimable last_step verify_at verify_loop
    matches hotp truncate format6 well_formed be_bytes ◌+ℤ◌ eq_text
consumed_once = refl

consumed-IsIncreasing_example :
    IsIncreasing toy_hmac
      (last_step users (codes "u"))
      (consumed toy_hmac (codes "u") attempts users)
consumed-IsIncreasing_example = consumed-IsIncreasing toy_hmac (codes "u") attempts users

run_consume : (verify_and_consume_totp toy_hmac (some secret) a_user typed (pos 65) users).0 ≡ true
unfolding verify_and_consume_totp consume_step claimable verify_at verify_loop matches hotp truncate
    format6 well_formed be_bytes ◌+ℤ◌ eq_text
run_consume = refl

verify_and_consume_totp-consumes_example :
    (key : List ℕ) × (step : ℤ) × (some secret ≡ some key)
    × Hit toy_hmac key typed (div_euclid (pos 65) period_seconds) step
    × (last_step
          (verify_and_consume_totp toy_hmac (some secret) a_user typed (pos 65) users).1
          (codes "u")
        ≡ some step)
    × (is_below (last_step users (codes "u")) step ≡ true)
    × ((id : Text)
        → eq_text (codes "u") id ≡ false
        → (verify_and_consume_totp toy_hmac (some secret) a_user typed (pos 65) users).1 id
          ≡ users id)
verify_and_consume_totp-consumes_example =
    verify_and_consume_totp-consumes toy_hmac (some secret) a_user typed (pos 65) users run_consume
