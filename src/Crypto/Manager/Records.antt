-- ===== src/Crypto/Manager/Records.antt =====
-- A ciphertext opens under no other record than the one that it was sealed for.
use configdeck.Crypto.Aad.{CurrentValueContext, ProposedValueContext}
use configdeck.Crypto.Binding.{
  Context, variable_current, change_request_proposed_value, aad, IsU64, aad_injective,
}
use configdeck.Crypto.Manager.{
  Primitives, EncryptedBlob, encrypt, decrypt, encrypt_current_value, decrypt_current_value,
  encrypt_proposed_value,
}
use configdeck.Crypto.Outcome.{ok, err, authentication, ◌>>=◌, >>=-eq-ok, or_panic, or_panic-eq-ok}
use configdeck.Prelude.{
  ◌≡◌, ◌≢◌, ◌⊎◌, inl, inr, sym, ap, ◌∙◌, some, Text, arith, eq_text, eq_text_iff, Bool-cases,
  Option-cases, length,
}

module _ (lib : Primitives) where
  -- The very ciphertext that was sealed with `p` for the record `c` is also what the cipher makes,
  -- with the same key and nonce, of `q` and the other data of the record `d`.
  pub record IsForged (key nonce : Text) (c d : Context) (p q cipher : Text) : Type 0 where
    pub data_sealed : Text
    pub data_opened : Text
    pub of_sealed : aad c ≡ some data_sealed
    pub of_opened : aad d ≡ some data_opened
    pub apart : data_sealed ≢ data_opened
    pub sealed : lib.seal key nonce data_sealed p ≡ some cipher
    pub also_sealed : lib.seal key nonce data_opened q ≡ some cipher

  module _ (key nonce p q : Text) {blob : EncryptedBlob} where
    opened :
        (c d : Context) (a b : Text)
        → aad c ≡ some a
        → aad d ≡ some b
        → encrypt lib (some nonce) key p a ≡ ok blob
        → decrypt lib key blob.ciphertext blob.nonce b ≡ ok q
        → ((a ≡ b) × (p ≡ q)) ⊎ IsForged key nonce c d p q blob.ciphertext
    unfolding encrypt decrypt
    opened c d a b pa pb h k =
        let sealed : lib.seal key nonce a p ≡ some blob.ciphertext = ground arith in
        let unsealed : lib.unseal key nonce b blob.ciphertext ≡ some q = ground arith in
        elim (Bool-cases (eq_text a b)) [
          | inl e ↦
              let same = (eq_text_iff a b).0 e in
              let back = lib.unseal-seal key nonce a p blob.ciphertext sealed in
              inl (same, ground arith)
          | inr e ↦ inr (record {
            data_sealed = a;
            data_opened = b;
            of_sealed = pa;
            of_opened = pb;
            apart = λ same. ground (arith, eq_text_iff a b);
            sealed = sealed;
            also_sealed = lib.seal-unseal key nonce b blob.ciphertext q unsealed;
          })
        ]

    opened_as :
        (c d : Context)
        → IsU64 c
        → IsU64 d
        → (or_panic (aad c) >>= λ a. encrypt lib (some nonce) key p a) ≡ ok blob
        → (or_panic (aad d) >>= λ a. decrypt lib key blob.ciphertext blob.nonce a) ≡ ok q
        → ((c ≡ d) × (p ≡ q)) ⊎ IsForged key nonce c d p q blob.ciphertext
    opened_as c d u v h k =
        let (a, pa, sealed) = >>=-eq-ok (or_panic (aad c)) _ h in
        let (b, pb, unsealed) = >>=-eq-ok (or_panic (aad d)) _ k in
        let ea = or_panic-eq-ok (aad c) pa in
        let eb = or_panic-eq-ok (aad d) pb in
        elim (opened c d a b ea eb sealed unsealed) [
          | inl (same, text) ↦ inl (aad_injective c d u v ea (eb ∙ ap some (sym same)), text)
          | inr f ↦ inr f
        ]

    -- A current value that opens for a record, under the key and nonce that it was sealed with,
    -- was sealed for that record and comes back unchanged; or the cipher has made this ciphertext
    -- of the data of both records, which differ.
    pub decrypt_current_value_binds :
        (c d : CurrentValueContext)
        → IsU64 (variable_current c)
        → IsU64 (variable_current d)
        → encrypt_current_value lib (some nonce) key c p ≡ ok blob
        → decrypt_current_value lib key d blob.ciphertext blob.nonce ≡ ok q
        → ((variable_current c ≡ variable_current d) × (p ≡ q))
          ⊎ IsForged key nonce (variable_current c) (variable_current d) p q blob.ciphertext
    unfolding encrypt_current_value decrypt_current_value aad
    decrypt_current_value_binds c d u v h k =
        opened_as (variable_current c) (variable_current d) u v h k

  decrypt-answers :
      (key b : Text) (blob : EncryptedBlob)
      → length blob.nonce ≡ 12
      → (decrypt lib key blob.ciphertext blob.nonce b ≡ err authentication)
        ⊎ ((q : Text) × (decrypt lib key blob.ciphertext blob.nonce b ≡ ok q))
  unfolding decrypt
  decrypt-answers key b blob n = elim (Option-cases (lib.unseal key blob.nonce b blob.ciphertext)) [
    | inl e ↦ inl (ground arith)
    | inr (q, e) ↦ inr (q, ground arith)
  ]

  -- A value proposed in a change request, sealed with a nonce of 12 bytes, is refused as a current
  -- value of every record whose authenticated data can be built, whatever the two records are,
  -- with the error of the authentication; unless the cipher has made this very ciphertext of the
  -- data of both, which differ, and of the text that it opens to.
  pub decrypt_current_value_refuses_proposed :
      (key nonce p : Text) {blob : EncryptedBlob} (c : ProposedValueContext)
      (d : CurrentValueContext) (b : Text)
      → IsU64 (change_request_proposed_value c)
      → IsU64 (variable_current d)
      → length blob.nonce ≡ 12
      → aad (variable_current d) ≡ some b
      → encrypt_proposed_value lib (some nonce) key c p ≡ ok blob
      → (decrypt_current_value lib key d blob.ciphertext blob.nonce ≡ err authentication)
        ⊎ ((q : Text) × (decrypt_current_value lib key d blob.ciphertext blob.nonce ≡ ok q)
            × IsForged key nonce
                (change_request_proposed_value c)
                (variable_current d)
                p
                q
                blob.ciphertext)
  unfolding encrypt_proposed_value decrypt_current_value aad
  decrypt_current_value_refuses_proposed key nonce p {blob} c d b u v n built h =
      elim (decrypt-answers key b blob n) [
        | inl e ↦ inl (rw built e)
        | inr (q, e) ↦
            let opens : decrypt_current_value lib key d blob.ciphertext blob.nonce ≡ ok q =
              rw built e in
            elim (opened_as key nonce p q (change_request_proposed_value c) (variable_current d) u v
              h opens) [ inl (same, text) ↦ absurd (cc (same)) | inr f ↦ inr (q, opens, f) ]
      ]
