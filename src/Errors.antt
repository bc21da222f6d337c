-- ===== src/Errors.antt =====
-- `AppError` of src/error.rs, and the chains of steps that may fail with one.
use configdeck.Prelude.{◌≡◌, refl, Bool, true, false, Option, none, some, ◌⊎◌, inl, inr}

-- The errors that are carried by another library's error stand here without it.
pub data AppError : Type 0 where
  database migration crypto authentication unauthorized : AppError
  organization_setup_required password_change_required forbidden rate_limited : AppError
  invalid_request not_found last_active_environment environment_has_open_requests : AppError
  import_review_conflict conflict template internal : AppError

pub data Result {ℓ} (A : Type ℓ) : Type ℓ where
  ok : A → Result A
  err : AppError → Result A

module _ {ℓ κ} {A : Type ℓ} {B : Type κ} where
  infixl 5 ◌>>=◌
  -- `?`: the rest of a function, which runs on a value and is skipped by an error
  abbrev pub ◌>>=◌ : Result A → (A → Result B) → Result B
  err failure >>= rest = err failure
  ok value >>= rest = rest value

  pub >>=-eq-ok :
      (first : Result A) (rest : A → Result B) {b : B}
      → (first >>= rest) ≡ ok b
      → (a : A) × (first ≡ ok a) × (rest a ≡ ok b)
  >>=-eq-ok (err failure) rest h = cc
  >>=-eq-ok (ok value) rest h = (value, refl, h)

infixl 5 ◌>>◌
abbrev pub ◌>>◌ {κ} : {B : Type κ} → Result (Unit {0}) → Result B → Result B
first >> rest = first >>= λ _. rest

-- `if !test { return Err(e) }`
abbrev pub require : Bool → AppError → Result (Unit {0})
require true e = ok tt
require false e = err e

-- `Option::ok_or`
abbrev pub ok_or {ℓ} : {A : Type ℓ} → AppError → Option A → Result A
ok_or e none = err e
ok_or e (some a) = ok a

pub >>-eq-ok {ℓ} :
    {B : Type ℓ} (m : Result (Unit {0})) (k : Result B) {b : B}
    → (m >> k) ≡ ok b
    → (m ≡ ok tt) × (k ≡ ok b)
>>-eq-ok (ok tt) k h = (refl, h)
>>-eq-ok (err e) k h = cc

pub require-eq-ok : (b : Bool) (e : AppError) → require b e ≡ ok tt → b ≡ true
require-eq-ok true e h = refl
require-eq-ok false e h = cc

pub ok_or-eq-ok {ℓ} :
    {A : Type ℓ} (e : AppError) (o : Option A) {a : A} → ok_or e o ≡ ok a → o ≡ some a
ok_or-eq-ok e none h = cc
ok_or-eq-ok e (some b) h = cc

-- To split on a computed result and keep the equation.
pub Result-cases {ℓ} :
    {A : Type ℓ} (m : Result A) → ((a : A) × (m ≡ ok a)) ⊎ ((e : AppError) × (m ≡ err e))
Result-cases (ok a) = inl (a, refl)
Result-cases (err e) = inr (e, refl)
