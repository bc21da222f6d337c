-- ===== src/Auth/Totp.antt =====
-- src/auth/totp.rs, and `verify_and_consume_totp` of src/auth/service.rs. HMAC-SHA-1 is a
-- parameter: from a key and a message it makes a digest of 20 bytes.
pub mod Window
pub mod Consume
use Prim.Native.Nat.{bit_and, bit_or}
use configdeck.Crypto.Bytes.{be_bytes}
use configdeck.Prelude.Int.{ℤ, pos, negsuc, ◌+ℤ◌, leb_ℤ, div_euclid}
use configdeck.Prelude.{
  ℕ, zero, suc, ◌+◌, ◌*◌, ◌/◌, ◌%◌, ◌^◌, Bool, true, false, not, ◌&&◌, ◌||◌, Option, none, some,
  List, [], ◌∷◌, Text, eq_text, all, length, ◌==◌, leb, if◌then◌else◌,
}

abbrev pub period_seconds : ℕ
period_seconds = 30

abbrev pub digits_modulus : ℕ
digits_modulus = 1000000

pub data TotpError : Type 0 where
  randomness invalid_code replayed_code : TotpError

pub data Result : Type 0 where
  ok : ℤ → Result
  err : TotpError → Result

-- `digest[i]`; the digest has 20 bytes, and no index is beyond 18.
abbrev byte_at : List ℕ → ℕ → ℕ
byte_at [] i = 0
byte_at (b ∷ bs) zero = b
byte_at (b ∷ bs) (suc i) = byte_at bs i

-- The dynamic truncation of `hotp`.
unfoldable pub truncate : List ℕ → ℕ
truncate digest =
    let offset = bit_and (byte_at digest 19) 0x0f in
    let binary =
      bit_or
        (bit_or
          (bit_or (bit_and (byte_at digest offset) 0x7f * 2 ^ 24)
            (byte_at digest (offset + 1) * 2 ^ 16))
          (byte_at digest (offset + 2) * 2 ^ 8))
        (byte_at digest (offset + 3)) in
    binary % digits_modulus

-- `format!("{:06}", n)` of a number below 1,000,000.
unfoldable pub format6 : ℕ → Text
format6 n =
    (b'0' + n / 100000)
    ∷ (b'0' + n / 10000 % 10)
    ∷ (b'0' + n / 1000 % 10)
    ∷ (b'0' + n / 100 % 10)
    ∷ (b'0' + n / 10 % 10)
    ∷ (b'0' + n % 10)
    ∷ []

abbrev pub is_ascii_digit : ℕ → Bool
is_ascii_digit b = leb b'0' b && leb b b'9'

-- the guard at the head of `verify_at`
unfoldable pub well_formed : Text → Bool
well_formed code = length code == 6 && all is_ascii_digit code

-- `last_used_step.is_some_and(|last| step <= last)`
abbrev pub is_stale : Option ℤ → ℤ → Bool
is_stale none step = false
is_stale (some last) step = leb_ℤ step last

module _ (hmac_sha1 : List ℕ → List ℕ → List ℕ) where
  unfoldable pub hotp : List ℕ → ℕ → ℕ
  hotp secret counter = truncate (hmac_sha1 secret (be_bytes 8 counter))

  -- The code that `verify_at` expects at a step; a negative step has none.
  unfoldable pub matches : List ℕ → Text → ℤ → Bool
  matches secret code (pos counter) = eq_text (format6 (hotp secret counter)) code
  matches secret code (negsuc n) = false

  -- The loop over the offsets, with the flag `replayed`.
  unfoldable pub verify_loop : List ℕ → Text → Option ℤ → ℤ → List ℤ → Bool → Result
  verify_loop secret code last_used current_step [] replayed =
      if replayed then err replayed_code else err invalid_code
  verify_loop secret code last_used current_step (offset ∷ offsets) replayed =
      let step = current_step +ℤ offset in
      let hit = matches secret code step in
      let next =
        verify_loop secret code last_used current_step offsets
          (replayed || hit && is_stale last_used step) in
      if hit && not (is_stale last_used step) then ok step else next

  unfoldable pub verify_at : List ℕ → Text → ℤ → Option ℤ → Result
  verify_at secret code unix_seconds last_used =
      if not (well_formed code)
      then err invalid_code
      else verify_loop secret code last_used (div_euclid unix_seconds period_seconds)
          (negsuc 0 ∷ pos 0 ∷ pos 1 ∷ []) false
