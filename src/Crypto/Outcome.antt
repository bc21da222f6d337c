-- ===== src/Crypto/Outcome.antt =====
-- The results of src/crypto/mod.rs: a value, a `CryptoError`, or the panic of `AadBuilder::field`.
use configdeck.Prelude.{◌≡◌, refl, Option, none, some}

pub data CryptoError : Type 0 where
  randomness invalid_nonce invalid_dek authentication key_derivation : CryptoError

pub data Outcome {ℓ} (A : Type ℓ) : Type ℓ where
  ok : A → Outcome A
  err : CryptoError → Outcome A
  panic : Outcome A

module _ {ℓ κ} {A : Type ℓ} {B : Type κ} where
  infixl 5 ◌>>=◌
  abbrev pub ◌>>=◌ : Outcome A → (A → Outcome B) → Outcome B
  panic >>= rest = panic
  err failure >>= rest = err failure
  ok value >>= rest = rest value

  pub >>=-eq-ok :
      (first : Outcome A) (rest : A → Outcome B) {b : B}
      → (first >>= rest) ≡ ok b
      → (a : A) × (first ≡ ok a) × (rest a ≡ ok b)
  >>=-eq-ok (ok value) rest h = (value, refl, h)
  >>=-eq-ok _ rest h = cc

-- `Result::or_else` with a handler that drops the error
abbrev pub or_else {ℓ} : {A : Type ℓ} → Outcome A → Outcome A → Outcome A
or_else (ok a) other = ok a
or_else (err e) other = other
or_else panic other = panic

-- `Option::ok_or`
abbrev pub ok_or {ℓ} : {A : Type ℓ} → CryptoError → Option A → Outcome A
ok_or e none = err e
ok_or e (some a) = ok a

-- a value or a panic
abbrev pub or_panic {ℓ} : {A : Type ℓ} → Option A → Outcome A
or_panic none = panic
or_panic (some a) = ok a

pub or_panic-eq-ok {ℓ} : {A : Type ℓ} (o : Option A) {a : A} → or_panic o ≡ ok a → o ≡ some a
or_panic-eq-ok none h = cc
or_panic-eq-ok (some b) h = cc
