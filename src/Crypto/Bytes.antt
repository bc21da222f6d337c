-- ===== src/Crypto/Bytes.antt =====
-- `to_be_bytes` of Rust's unsigned integers.
use configdeck.Prelude.{
  ℕ, zero, suc, ◌+◌, ◌*◌, ◌/◌, ◌%◌, ◌^◌, ◌<◌, ◌≡◌, refl, ap, List, [], ◌∷◌, arith, length,
}

-- The lowest `width` bytes of a number, the highest of them first.
unfoldable pub be_bytes : ℕ → ℕ → List ℕ
be_bytes zero n = []
be_bytes (suc w) n = (n / 256 ^ w % 256) ∷ be_bytes w n

pub length-be_bytes : (w n : ℕ) → length (be_bytes w n) ≡ w
unfolding be_bytes
length-be_bytes zero n = refl
length-be_bytes (suc w) n = ap suc (length-be_bytes w n)

abbrev pub of_bytes : ℕ → List ℕ → ℕ
of_bytes acc [] = acc
of_bytes acc (b ∷ bs) = of_bytes (acc * 256 + b) bs

pub of_be_bytes4 : (n : ℕ) → n < 256 ^ 4 → of_bytes 0 (be_bytes 4 n) ≡ n
unfolding be_bytes
of_be_bytes4 n h = omega arith

pub of_be_bytes8 : (n : ℕ) → n < 256 ^ 8 → of_bytes 0 (be_bytes 8 n) ≡ n
unfolding be_bytes
of_be_bytes8 n h = omega arith
