-- ===== src/Rotations/Laws.antt =====
-- What the rotation relies on in a table of sealed rows, and that the three tables have it.
use configdeck.Crypto.Manager.RoundTrip.{
  decrypt_current_value-encrypt, decrypt_proposed_value-encrypt,
}
use configdeck.Crypto.Aad.{current_value_aad, proposed_value_aad}
use configdeck.Crypto.Manager.{
  Primitives, EncryptedBlob, encrypt, encrypt_current_value, encrypt_proposed_value,
}
use configdeck.Crypto.Outcome.{ok, or_panic, >>=-eq-ok}
use configdeck.Prelude.{ℕ, ◌≡◌, refl, Option, none, some, Text, length}
use configdeck.Rotations.{
  CipherTable, current_table, history_table, proposal_table, open_proposal, current_context,
  history_context, proposal_context,
}

pub record IsLawful {Row : Type 0} (table : CipherTable Row) : Type 0 where
  pub id_stored : (v : ℕ) (b : EncryptedBlob) (r : Row) → table.id (table.stored v b r) ≡ table.id r
  pub environment_stored :
      (v : ℕ) (b : EncryptedBlob) (r : Row)
      → table.environment_id (table.stored v b r) ≡ table.environment_id r
  pub version_stored :
      (v : ℕ) (b : EncryptedBlob) (r : Row) → table.dek_version (table.stored v b r) ≡ v
  pub drawn :
      (random : Option Text) (dek : Text) (v : ℕ) (r : Row) (p : Text) (b : EncryptedBlob)
      → table.seal_row random dek v r p ≡ ok b
      → (nonce : Text) × (random ≡ some nonce)
  pub open_stored :
      (nonce dek : Text) (v : ℕ) (r : Row) (p : Text) (b : EncryptedBlob)
      → length nonce ≡ 12
      → table.seal_row (some nonce) dek v r p ≡ ok b
      → table.open_row dek v (table.stored v b r) ≡ ok p

module _ (lib : Primitives) where
  encrypt_drawn :
      (random : Option Text) (key plain aad : Text) {b : EncryptedBlob}
      → encrypt lib random key plain aad ≡ ok b
      → (nonce : Text) × (random ≡ some nonce)
  unfolding encrypt
  encrypt_drawn (some nonce) key plain aad h = (nonce, refl)
  encrypt_drawn none key plain aad h = cc

  pub current_table-IsLawful : IsLawful (current_table lib)
  unfolding current_table encrypt_current_value
  current_table-IsLawful = record {
    id_stored = λ v b r. refl;
    environment_stored = λ v b r. refl;
    version_stored = λ v b r. refl;
    drawn = λ random dek v r p b h.
        let (aad, e, sealed) = >>=-eq-ok (or_panic (current_value_aad (current_context v r))) _ h in
        encrypt_drawn random dek p aad sealed;
    open_stored = λ nonce dek v r p b n h.
        decrypt_current_value-encrypt lib dek p nonce (current_context v r) n h;
  }

  pub history_table-IsLawful : IsLawful (history_table lib)
  unfolding history_table encrypt_current_value
  history_table-IsLawful = record {
    id_stored = λ v b r. refl;
    environment_stored = λ v b r. refl;
    version_stored = λ v b r. refl;
    drawn = λ random dek v r p b h.
        let (aad, e, sealed) = >>=-eq-ok (or_panic (current_value_aad (history_context v r))) _ h in
        encrypt_drawn random dek p aad sealed;
    open_stored = λ nonce dek v r p b n h.
        decrypt_current_value-encrypt lib dek p nonce (history_context v r) n h;
  }

  pub proposal_table-IsLawful : IsLawful (proposal_table lib)
  unfolding proposal_table encrypt_proposed_value open_proposal
  proposal_table-IsLawful = record {
    id_stored = λ v b r. refl;
    environment_stored = λ v b r. refl;
    version_stored = λ v b r. refl;
    drawn = λ random dek v r p b h.
        let (aad, e, sealed) =
          >>=-eq-ok (or_panic (proposed_value_aad (proposal_context v r))) _ h in
        encrypt_drawn random dek p aad sealed;
    open_stored = λ nonce dek v r p b n h.
        rw (decrypt_proposed_value-encrypt lib dek p nonce (proposal_context v r) {blob = b} n h)
          refl;
  }
