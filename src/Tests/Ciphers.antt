-- ===== src/Tests/Ciphers.antt =====
-- Two ciphers for runs. `framed` puts the key, the nonce and the authenticated data before the
-- text and asks for the same ones when it opens; `clear` checks nothing.
use configdeck.Crypto.Aad.{
  CurrentValueContext, ProposedValueContext, field, current_value_aad, proposed_value_aad, totp_aad,
}
use configdeck.Crypto.Binding.{
  variable_current, change_request_proposed_value, totp_seed, aad, aad_injective,
}
use configdeck.Crypto.Bytes.{be_bytes}
use configdeck.Crypto.Manager.Records.{
  IsForged, decrypt_current_value_binds, decrypt_current_value_refuses_proposed,
}
use configdeck.Crypto.Manager.RoundTrip.{
  decrypt_current_value-encrypt, decrypt_proposed_value-encrypt,
}
use configdeck.Crypto.Manager.{
  Primitives, EncryptedBlob, CryptoManager, encrypt, decrypt, wrap_dek, encrypt_current_value,
  decrypt_current_value, encrypt_proposed_value, decrypt_proposed_value,
}
use configdeck.Crypto.Outcome.{Outcome, ok, err, authentication}
use configdeck.Prelude.{
  ℕ, ◌≡◌, ◌⊎◌, refl, sym, ap, [], ◌∷◌, ◌++◌, Option, none, some, Text, codes, length, arith, ◌==◌,
  if◌then◌else◌,
}

-- What follows a prefix, if the text starts with it.
unfoldable pub strip : Text → Text → Option Text
strip [] text = some text
strip (p ∷ ps) [] = none
strip (p ∷ ps) (c ∷ cs) = if p == c then strip ps cs else none

strip-append : (p text : Text) → strip p (p ++ text) ≡ some text
unfolding strip
strip-append [] text = refl
strip-append (x ∷ p) text = ground (arith, strip-append p text)

append-strip : (p cipher text : Text) → strip p cipher ≡ some text → p ++ text ≡ cipher
unfolding strip
append-strip [] cipher text h = ground arith
append-strip (x ∷ p) [] text h = cc
append-strip (x ∷ p) (c ∷ cs) text h = ground (arith, append-strip p cs text)

abbrev pub frame : Text → Text → Text → Text
frame key nonce bytes = key ++ (nonce ++ bytes)

pub framed_opens :
    (prefix plain cipher : Text)
    → some (prefix ++ plain) ≡ some cipher
    → strip prefix cipher ≡ some plain
framed_opens prefix plain cipher h = ground (arith, h, strip-append prefix plain)

pub framed_sealed :
    (prefix cipher plain : Text)
    → strip prefix cipher ≡ some plain
    → some (prefix ++ plain) ≡ some cipher
framed_sealed prefix cipher plain h = ap some (append-strip prefix cipher plain h)

abbrev pub framed : Primitives
framed = record {
  seal = λ key nonce bytes plain. some (frame key nonce bytes ++ plain);
  unseal = λ key nonce bytes cipher. strip (frame key nonce bytes) cipher;
  hkdf = λ key info. some key;
  unseal-seal = λ key nonce bytes. framed_opens (frame key nonce bytes);
  seal-unseal = λ key nonce bytes. framed_sealed (frame key nonce bytes);
}

abbrev pub clear : Primitives
clear = record {
  seal = λ key nonce bytes plain. some plain;
  unseal = λ key nonce bytes cipher. some cipher;
  hkdf = λ key info. some key;
  unseal-seal = λ key nonce bytes plain cipher h. sym h;
  seal-unseal = λ key nonce bytes cipher plain h. sym h;
}

abbrev pub key32 : ℕ → Text
key32 n =
    let four = n ∷ n ∷ n ∷ n ∷ [] in
    four ++ (four ++ (four ++ (four ++ (four ++ (four ++ (four ++ four))))))

abbrev pub nonce12 : Text
nonce12 = codes "nonce-of-12b"

abbrev current : CurrentValueContext
current = record {
  service_id = codes "s";
  environment_id = codes "e";
  variable_id = codes "v";
  version = 3;
  dek_version = 1;
}

abbrev proposed : ProposedValueContext
proposed = record {
  service_id = codes "s";
  environment_id = codes "e";
  change_request_id = codes "r";
  item_id = codes "i";
  item_revision = 1;
  dek_version = 1;
}

abbrev pub no_blob : EncryptedBlob
no_blob = record { ciphertext = []; nonce = [] }

abbrev pub blob_of : Outcome EncryptedBlob → EncryptedBlob
blob_of (ok b) = b
blob_of _ = no_blob

-- The fields of a TOTP seed's data, written out.
abbrev seed_data : Text
seed_data =
    1 ∷ (0 ∷ 0 ∷ 0 ∷ 10 ∷ codes "configdeck")
    ++ ((0 ∷ 0 ∷ 0 ∷ 9 ∷ codes "totp-seed")
        ++ ((0 ∷ 0 ∷ 0 ∷ 1 ∷ codes "u") ++ (0 ∷ 0 ∷ 0 ∷ 8 ∷ 0 ∷ 0 ∷ 0 ∷ 0 ∷ 0 ∷ 0 ∷ 0 ∷ 5 ∷ [])))

seed_data_built : aad (totp_seed (codes "u") 5) ≡ some seed_data
unfolding aad totp_aad field be_bytes
seed_data_built = refl

aad_injective_example : totp_seed (codes "u") 5 ≡ totp_seed (codes "u") 5
aad_injective_example =
    aad_injective (totp_seed (codes "u") 5) (totp_seed (codes "u") 5) (omega arith) (omega arith)
      seed_data_built seed_data_built

abbrev sealed_current : Primitives → EncryptedBlob
sealed_current lib =
    blob_of (encrypt_current_value lib (some nonce12) (key32 1) current (codes "secret"))

sealing_current :
    encrypt_current_value framed (some nonce12) (key32 1) current (codes "secret")
    ≡ ok (sealed_current framed)
unfolding encrypt_current_value encrypt current_value_aad field be_bytes
sealing_current = refl

decrypt_current_value-encrypt_example :
    decrypt_current_value framed
      (key32 1)
      current
      (sealed_current framed).ciphertext
      (sealed_current framed).nonce
    ≡ ok (codes "secret")
decrypt_current_value-encrypt_example =
    decrypt_current_value-encrypt framed (key32 1) (codes "secret") nonce12 current refl
      sealing_current

abbrev sealed_proposed : Primitives → EncryptedBlob
sealed_proposed lib =
    blob_of (encrypt_proposed_value lib (some nonce12) (key32 1) proposed (codes "secret"))

sealing_proposed :
    encrypt_proposed_value framed (some nonce12) (key32 1) proposed (codes "secret")
    ≡ ok (sealed_proposed framed)
unfolding encrypt_proposed_value encrypt proposed_value_aad field be_bytes
sealing_proposed = refl

decrypt_proposed_value-encrypt_example :
    decrypt_proposed_value framed
      (key32 1)
      proposed
      (sealed_proposed framed).ciphertext
      (sealed_proposed framed).nonce
    ≡ ok (codes "secret")
decrypt_proposed_value-encrypt_example =
    decrypt_proposed_value-encrypt framed (key32 1) (codes "secret") nonce12 proposed refl
      sealing_proposed

opening_current :
    decrypt_current_value framed
      (key32 1)
      current
      (sealed_current framed).ciphertext
      (sealed_current framed).nonce
    ≡ ok (codes "secret")
unfolding decrypt_current_value decrypt encrypt_current_value encrypt current_value_aad field
    be_bytes strip
opening_current = refl

decrypt_current_value_binds_example :
    ((variable_current current ≡ variable_current current) × (codes "secret" ≡ codes "secret"))
    ⊎ IsForged framed
        (key32 1)
        nonce12
        (variable_current current)
        (variable_current current)
        (codes "secret")
        (codes "secret")
        (sealed_current framed).ciphertext
decrypt_current_value_binds_example =
    decrypt_current_value_binds framed (key32 1) nonce12 (codes "secret") (codes "secret") current
      current (omega arith, omega arith) (omega arith, omega arith) sealing_current opening_current

proposed_nonce : length (sealed_proposed framed).nonce ≡ 12
unfolding encrypt_proposed_value encrypt proposed_value_aad field be_bytes
proposed_nonce = refl

abbrev text_of : Option Text → Text
text_of none = []
text_of (some text) = text

abbrev current_data : Text
current_data = text_of (aad (variable_current current))

current_data_built : aad (variable_current current) ≡ some current_data
unfolding aad current_value_aad field be_bytes
current_data_built = refl

-- The other data is not that of the record, so that the text does not open.
refusing_proposed :
    decrypt_current_value framed
      (key32 1)
      current
      (sealed_proposed framed).ciphertext
      (sealed_proposed framed).nonce
    ≡ err authentication
unfolding decrypt_current_value decrypt encrypt_proposed_value encrypt proposed_value_aad
    current_value_aad field be_bytes strip
refusing_proposed = refl

decrypt_current_value_refuses_proposed_example :
    (decrypt_current_value framed
        (key32 1)
        current
        (sealed_proposed framed).ciphertext
        (sealed_proposed framed).nonce
      ≡ err authentication)
    ⊎ ((q : Text) × (decrypt_current_value framed
            (key32 1)
            current
            (sealed_proposed framed).ciphertext
            (sealed_proposed framed).nonce
          ≡ ok q)
        × IsForged framed
            (key32 1)
            nonce12
            (change_request_proposed_value proposed)
            (variable_current current)
            (codes "secret")
            q
            (sealed_proposed framed).ciphertext)
decrypt_current_value_refuses_proposed_example =
    decrypt_current_value_refuses_proposed framed (key32 1) nonce12 (codes "secret")
      {blob = sealed_proposed framed} proposed current current_data (omega arith, omega arith)
      (omega arith, omega arith) proposed_nonce current_data_built sealing_proposed

abbrev pub old_manager : CryptoManager
old_manager = record { master_key = key32 1; previous_master_key = none }

abbrev pub new_manager : CryptoManager
new_manager = record { master_key = key32 2; previous_master_key = some (key32 1) }

abbrev wrapped : EncryptedBlob
wrapped = blob_of (wrap_dek framed old_manager (some nonce12) (codes "e") 1 1 (key32 9))
