-- ===== src/Crypto/Manager/RoundTrip.antt =====
-- What was sealed is read back, also after the master key was replaced.
use configdeck.Crypto.Aad.{
  CurrentValueContext, ProposedValueContext, wrapped_dek_aad, current_value_aad, proposed_value_aad,
}
use configdeck.Crypto.Manager.{
  Primitives, EncryptedBlob, CryptoManager, encrypt, decrypt, wrap_dek, unwrap_dek,
  encrypt_current_value, decrypt_current_value, encrypt_proposed_value, decrypt_proposed_value,
}
use configdeck.Crypto.Outcome.{ok, err, >>=-eq-ok, or_panic, authentication}
use configdeck.Prelude.{ℕ, ◌≡◌, ◌⊎◌, inl, inr, none, some, Text, length, arith}

module _ (lib : Primitives) where
  decrypt-encrypt :
      (key plain aad nonce : Text) {blob : EncryptedBlob}
      → length nonce ≡ 12
      → encrypt lib (some nonce) key plain aad ≡ ok blob
      → decrypt lib key blob.ciphertext blob.nonce aad ≡ ok plain
  unfolding encrypt decrypt
  decrypt-encrypt key plain aad nonce {blob} n h =
      ground (arith, lib.unseal-seal key nonce aad plain blob.ciphertext)

  encrypt-nonce :
      (key plain aad nonce : Text) {blob : EncryptedBlob}
      → encrypt lib (some nonce) key plain aad ≡ ok blob
      → (blob.nonce ≡ nonce) × (lib.seal key nonce aad plain ≡ some blob.ciphertext)
  unfolding encrypt
  encrypt-nonce key plain aad nonce h = ground arith

  decrypt_closed :
      (key aad nonce cipher : Text)
      → length nonce ≡ 12
      → lib.unseal key nonce aad cipher ≡ none
      → decrypt lib key cipher nonce aad ≡ err authentication
  unfolding decrypt
  decrypt_closed key aad nonce cipher n h = ground arith

  -- A current value that was sealed with a nonce of 12 bytes is read back under the same key and
  -- the same record.
  pub decrypt_current_value-encrypt :
      (key plain nonce : Text) (context : CurrentValueContext) {blob : EncryptedBlob}
      → length nonce ≡ 12
      → encrypt_current_value lib (some nonce) key context plain ≡ ok blob
      → decrypt_current_value lib key context blob.ciphertext blob.nonce ≡ ok plain
  unfolding encrypt_current_value decrypt_current_value
  decrypt_current_value-encrypt key plain nonce context n h =
      let (aad, p, q) = >>=-eq-ok (or_panic (current_value_aad context)) _ h in
      rw p (decrypt-encrypt key plain aad nonce n q)

  -- A proposed value that was sealed with a nonce of 12 bytes is read back under the same key and
  -- the same record.
  pub decrypt_proposed_value-encrypt :
      (key plain nonce : Text) (context : ProposedValueContext) {blob : EncryptedBlob}
      → length nonce ≡ 12
      → encrypt_proposed_value lib (some nonce) key context plain ≡ ok blob
      → decrypt_proposed_value lib key context blob.ciphertext blob.nonce ≡ ok plain
  unfolding encrypt_proposed_value decrypt_proposed_value
  decrypt_proposed_value-encrypt key plain nonce context n h =
      let (aad, p, q) = >>=-eq-ok (or_panic (proposed_value_aad context)) _ h in
      rw p (decrypt-encrypt key plain aad nonce n q)

  pub unwrap_dek-wrap :
      (m m' : CryptoManager) (environment_id dek nonce : Text) (dek_version kek_version : ℕ)
      {blob : EncryptedBlob}
      → length nonce ≡ 12
      → length dek ≡ 32
      → wrap_dek lib m (some nonce) environment_id dek_version kek_version dek ≡ ok blob
      → (m'.master_key ≡ m.master_key)
        ⊎ ((m'.previous_master_key ≡ some m.master_key)
            × ((aad : Text) → lib.unseal m'.master_key nonce aad blob.ciphertext ≡ none))
      → unwrap_dek lib m' environment_id dek_version kek_version blob.ciphertext blob.nonce ≡ ok dek
  unfolding wrap_dek unwrap_dek
  unwrap_dek-wrap m m' environment_id dek nonce dek_version kek_version {blob} n l h keys =
      let (aad, p, q) =
        >>=-eq-ok (or_panic (wrapped_dek_aad environment_id dek_version kek_version)) _ h in
      let opened = decrypt-encrypt m.master_key dek aad nonce n q in
      let facts = encrypt-nonce m.master_key dek aad nonce q in
      elim keys [
        | inl same ↦ rw p (rw same (rw opened (ground arith)))
        | inr (previous, closed) ↦ rw p (
            rw previous (
              let refused : decrypt lib m'.master_key blob.ciphertext blob.nonce aad
                  ≡ err authentication =
                rw facts.0
                  (decrypt_closed m'.master_key aad nonce blob.ciphertext n (closed aad)) in
              rw (refused, opened) (ground arith)))
      ]
