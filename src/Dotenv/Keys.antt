-- ===== src/Dotenv/Keys.antt =====
-- Which keys are valid.
use configdeck.Dotenv.Message.{good}
use configdeck.Dotenv.Values.{validate_key_syntax, valid_key, is_key_start, is_key_character}
use configdeck.Prelude.{
  ◌≤◌, ◌≡◌, ◌↔◌, refl, true, false, not, [], ◌∷◌, Text, arith, any, byte_len, All,
}

-- A key is a letter or underscore with letters, digits, underscores and dots behind it, all ASCII,
-- in 255 bytes at most.
abbrev pub IsKey : Text → Type 0
IsKey [] = ⊥
IsKey (c ∷ cs) =
    (is_key_start c ≡ true) × All (λ d. is_key_character d ≡ true) cs × (byte_len (c ∷ cs) ≤ 255)

none_bad :
    (cs : Text)
    → (any (λ d. not (is_key_character d)) cs ≡ false) ↔ All (λ d. is_key_character d ≡ true) cs
none_bad [] = (λ h. tt, λ h. refl)
none_bad (c ∷ cs) = (
  λ h. (ground arith, (none_bad cs).0 (ground arith)),
  λ h. ground (arith, h.0, (none_bad cs).1 h.1),
)

-- A key is valid exactly if it is a letter or underscore with letters, digits, underscores and
-- dots behind it, in 255 bytes at most.
pub valid_key_iff : (key : Text) → (valid_key key ≡ true) ↔ IsKey key
unfolding valid_key validate_key_syntax
valid_key_iff [] = (λ h. ground arith, λ h. absurd h)
valid_key_iff (c ∷ cs) = (
  λ h. (ground arith, (none_bad cs).0 (ground arith), ground arith),
  λ h. ground (arith, h.0, (none_bad cs).1 h.1, h.2),
)

pub valid_key-good : (key : Text) → valid_key key ≡ true → validate_key_syntax key ≡ good tt
unfolding valid_key validate_key_syntax
valid_key-good key h = ground arith

pub IsKey-characters : (key : Text) → IsKey key → All (λ d. is_key_character d ≡ true) key
IsKey-characters [] k = absurd k
IsKey-characters (c ∷ cs) k = (ground (arith, k.0), k.1)
