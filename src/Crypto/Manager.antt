-- ===== src/Crypto/Manager.antt =====
-- `CryptoManager` of src/crypto/mod.rs. ChaCha20-Poly1305 and HKDF are parameters; the nonce that
-- `getrandom` fills, or its failure, is an argument of each operation that seals.
pub mod RoundTrip
pub mod Records
use configdeck.Crypto.Aad.{
  CurrentValueContext, ProposedValueContext, wrapped_dek_aad, current_value_aad, proposed_value_aad,
  totp_aad,
}
use configdeck.Crypto.Outcome.{
  Outcome, ok, err, ◌>>=◌, or_else, ok_or, or_panic, randomness, invalid_nonce, invalid_dek,
  authentication, key_derivation,
}
use configdeck.Prelude.{
  ℕ, ◌≡◌, Bool, Option, none, some, List, [], ◌∷◌, Text, codes, length, ◌==◌, if◌then◌else◌,
}

abbrev pub nonce_size : ℕ
nonce_size = 12

abbrev pub dek_size : ℕ
dek_size = 32

-- What the program takes from its libraries. `seal` and `unseal` take the key, the nonce, the
-- authenticated data and the text; what was sealed can be unsealed, and only that.
pub record Primitives : Type 0 where
  pub seal : Text → Text → Text → Text → Option Text
  pub unseal : Text → Text → Text → Text → Option Text
  pub hkdf : Text → Text → Option Text
  pub unseal-seal :
      (key nonce aad plain cipher : Text)
      → seal key nonce aad plain ≡ some cipher
      → unseal key nonce aad cipher ≡ some plain
  pub seal-unseal :
      (key nonce aad cipher plain : Text)
      → unseal key nonce aad cipher ≡ some plain
      → seal key nonce aad plain ≡ some cipher

pub record EncryptedBlob : Type 0 where
  pub ciphertext : Text
  pub nonce : Text

pub record CryptoManager : Type 0 where
  pub master_key : Text
  pub previous_master_key : Option Text

module _ (lib : Primitives) where
  -- `random` is what `getrandom::fill` put into the 12 bytes of the nonce.
  unfoldable pub encrypt : Option Text → Text → Text → Text → Outcome EncryptedBlob
  encrypt random key plaintext aad = do
    nonce ← ok_or randomness random
    ciphertext ← ok_or authentication (lib.seal key nonce aad plaintext)
    ok (record { ciphertext = ciphertext; nonce = nonce })

  unfoldable pub decrypt : Text → Text → Text → Text → Outcome Text
  decrypt key ciphertext nonce aad =
      if length nonce == nonce_size
      then ok_or authentication (lib.unseal key nonce aad ciphertext)
      else err invalid_nonce

  -- the conversion to an array of 32 bytes
  abbrev to_dek : Text → Outcome Text
  to_dek plaintext = if length plaintext == dek_size then ok plaintext else err invalid_dek

  unfoldable pub wrap_dek :
      CryptoManager → Option Text → Text → ℕ → ℕ → Text → Outcome EncryptedBlob
  unfolding encrypt
  wrap_dek m random environment_id dek_version kek_version dek = do
    aad ← or_panic (wrapped_dek_aad environment_id dek_version kek_version)
    encrypt random m.master_key dek aad

  -- the fallback of `unwrap_dek` to the previous key
  abbrev with_previous : Option Text → (Text → Outcome Text) → Outcome Text
  with_previous none f = err authentication
  with_previous (some key) f = f key

  unfoldable pub unwrap_dek : CryptoManager → Text → ℕ → ℕ → Text → Text → Outcome Text
  unfolding decrypt
  unwrap_dek m environment_id dek_version kek_version ciphertext nonce = do
    aad ← or_panic (wrapped_dek_aad environment_id dek_version kek_version)
    plaintext ←
        or_else (decrypt m.master_key ciphertext nonce aad)
          (with_previous m.previous_master_key (λ key. decrypt key ciphertext nonce aad))
    to_dek plaintext

  unfoldable pub unwrap_dek_with_primary : CryptoManager → Text → ℕ → ℕ → Text → Text → Outcome Text
  unfolding decrypt
  unwrap_dek_with_primary m environment_id dek_version kek_version ciphertext nonce = do
    aad ← or_panic (wrapped_dek_aad environment_id dek_version kek_version)
    plaintext ← decrypt m.master_key ciphertext nonce aad
    to_dek plaintext

  unfoldable pub unwrap_dek_with_previous :
      CryptoManager → Text → ℕ → ℕ → Text → Text → Outcome Text
  unfolding decrypt
  unwrap_dek_with_previous m environment_id dek_version kek_version ciphertext nonce = do
    key ← ok_or authentication m.previous_master_key
    aad ← or_panic (wrapped_dek_aad environment_id dek_version kek_version)
    plaintext ← decrypt key ciphertext nonce aad
    to_dek plaintext

  unfoldable pub encrypt_current_value :
      Option Text → Text → CurrentValueContext → Text → Outcome EncryptedBlob
  unfolding encrypt
  encrypt_current_value random dek context value = do
    aad ← or_panic (current_value_aad context)
    encrypt random dek value aad

  unfoldable pub decrypt_current_value : Text → CurrentValueContext → Text → Text → Outcome Text
  unfolding decrypt
  decrypt_current_value dek context ciphertext nonce = do
    aad ← or_panic (current_value_aad context)
    decrypt dek ciphertext nonce aad

  unfoldable pub encrypt_proposed_value :
      Option Text → Text → ProposedValueContext → Text → Outcome EncryptedBlob
  unfolding encrypt
  encrypt_proposed_value random dek context value = do
    aad ← or_panic (proposed_value_aad context)
    encrypt random dek value aad

  unfoldable pub decrypt_proposed_value : Text → ProposedValueContext → Text → Text → Outcome Text
  unfolding decrypt
  decrypt_proposed_value dek context ciphertext nonce = do
    aad ← or_panic (proposed_value_aad context)
    decrypt dek ciphertext nonce aad

  abbrev pub derive_key : Text → Outcome Text
  derive_key master = ok_or key_derivation (lib.hkdf master (codes "totp-seed-key-v1"))

  unfoldable pub encrypt_totp_seed :
      CryptoManager → Option Text → Text → ℕ → Text → Outcome EncryptedBlob
  unfolding encrypt
  encrypt_totp_seed m random user_id crypto_version seed = do
    key ← derive_key m.master_key
    aad ← or_panic (totp_aad user_id crypto_version)
    encrypt random key seed aad

  unfoldable pub decrypt_totp_seed_with_previous :
      CryptoManager → Text → ℕ → Text → Text → Outcome Text
  unfolding decrypt
  decrypt_totp_seed_with_previous m user_id crypto_version ciphertext nonce = do
    master ← ok_or authentication m.previous_master_key
    key ← derive_key master
    aad ← or_panic (totp_aad user_id crypto_version)
    decrypt key ciphertext nonce aad

  unfoldable pub decrypt_totp_seed : CryptoManager → Text → ℕ → Text → Text → Outcome Text
  unfolding decrypt decrypt_totp_seed_with_previous
  decrypt_totp_seed m user_id crypto_version ciphertext nonce = do
    aad ← or_panic (totp_aad user_id crypto_version)
    key ← derive_key m.master_key
    or_else (decrypt key ciphertext nonce aad)
        (decrypt_totp_seed_with_previous m user_id crypto_version ciphertext nonce)
