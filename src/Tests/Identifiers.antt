-- ===== src/Tests/Identifiers.antt =====
-- Identifiers of requests, and a seed for one-time codes after a change of the master key.
use configdeck.Crypto.Manager.{EncryptedBlob, encrypt_totp_seed}
use configdeck.Crypto.Outcome.{ok}
use configdeck.Errors.{ok as fine}
use configdeck.Prelude.Space.{is_whitespace, trim, trim_start, trim_end}
use configdeck.Prelude.{
  ◌≡◌, refl, Bool, some, List, [], ◌∷◌, Text, codes, eq_text, lt_text, length, ◌==◌,
}
use configdeck.Requests.Selection.Ids.{IsIds, normalize_request_ids-IsIds}
use configdeck.Requests.Selection.{normalize_request_ids}
use configdeck.Tests.Ciphers.{framed, nonce12, old_manager, blob_of}

-- In place of the parser of UUIDs: one character.
abbrev is_short : Text → Bool
is_short id = length id == 1

abbrev given : List Text
given = codes " b" ∷ codes "a" ∷ codes "" ∷ codes "b " ∷ []

run_normalize : normalize_request_ids is_short given ≡ fine (codes "a" ∷ codes "b" ∷ [])
unfolding normalize_request_ids eq_text lt_text trim trim_start trim_end is_whitespace
run_normalize = refl

normalize_request_ids-IsIds_example : IsIds is_short given (codes "a" ∷ codes "b" ∷ [])
normalize_request_ids-IsIds_example =
    normalize_request_ids-IsIds is_short given (codes "a" ∷ codes "b" ∷ []) run_normalize

abbrev sealed_seed : EncryptedBlob
sealed_seed =
    blob_of (encrypt_totp_seed framed old_manager (some nonce12) (codes "u") 1 (codes "seed"))
