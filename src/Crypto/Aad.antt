-- ===== src/Crypto/Aad.antt =====
-- `AadBuilder` and the five kinds of additional authenticated data. Texts stand for their UTF-8
-- bytes. `none` is the panic on a field of 2^32 bytes or more.
use configdeck.Crypto.Bytes.{be_bytes}
use configdeck.Prelude.Fallible.{◌>>=◌}
use configdeck.Prelude.{
  ℕ, ◌^◌, [], ◌∷◌, ◌++◌, Option, none, some, Text, codes, ltb, length, if◌then◌else◌,
}

abbrev pub format_version : ℕ
format_version = 1

pub record CurrentValueContext : Type 0 where
  pub service_id : Text
  pub environment_id : Text
  pub variable_id : Text
  pub version : ℕ
  pub dek_version : ℕ

pub record ProposedValueContext : Type 0 where
  pub service_id : Text
  pub environment_id : Text
  pub change_request_id : Text
  pub item_id : Text
  pub item_revision : ℕ
  pub dek_version : ℕ

-- `AadBuilder::field`, on the bytes collected so far.
unfoldable pub field : Text → Text → Option Text
field acc value =
    if ltb (length value) (2 ^ 32) then some (acc ++ (be_bytes 4 (length value) ++ value)) else none

-- `AadBuilder::number`, of a `u64`.
abbrev pub number : Text → ℕ → Option Text
number acc n = field acc (be_bytes 8 n)

-- `AadBuilder::new`
abbrev new : Text → Option Text
new purpose = do acc ← field (format_version ∷ []) (codes "configdeck"); field acc purpose

unfoldable pub wrapped_dek_aad : Text → ℕ → ℕ → Option Text
wrapped_dek_aad environment_id dek_version kek_version = do
  a ← new (codes "environment-dek")
  b ← field a environment_id
  c ← number b dek_version
  d ← number c kek_version
  some d

unfoldable pub current_value_aad : CurrentValueContext → Option Text
current_value_aad context = do
  a ← new (codes "variable-current")
  b ← field a context.service_id
  c ← field b context.environment_id
  d ← field c context.variable_id
  e ← number d context.version
  f ← number e context.dek_version
  some f

unfoldable pub proposed_value_aad : ProposedValueContext → Option Text
proposed_value_aad context = do
  a ← new (codes "change-request-proposed-value")
  b ← field a context.service_id
  c ← field b context.environment_id
  d ← field c context.change_request_id
  e ← field d context.item_id
  f ← number e context.item_revision
  g ← number f context.dek_version
  some g

unfoldable pub totp_aad : Text → ℕ → Option Text
totp_aad user_id crypto_version = do
  a ← new (codes "totp-seed")
  b ← field a user_id
  c ← number b crypto_version
  some c

unfoldable pub import_preview_aad : Text → Text → Text → Option Text
import_preview_aad user_id session_id environment_id = do
  a ← new (codes "import-preview")
  b ← field a user_id
  c ← field b session_id
  d ← field c environment_id
  some d
