-- ===== src/Dotenv/Message.antt =====
-- The messages of src/dotenv/mod.rs, one constructor for each text, and results that carry one.
use configdeck.Prelude.{ℕ, ◌≡◌, ◌⊎◌, inl, inr, refl, List, Option, none, some, Text}

pub data Message : Type 0 where
  exceeds_500_variables duplicate_key no_assignments input_too_long nul_byte : Message
  expected_assignment value_too_long unknown_escape unexpected_after_quoted : Message
  unterminated_double unterminated_single : Message
  key_empty key_too_long key_bad_start key_bad_character : Message

pub data Parsed {ℓ} (A : Type ℓ) : Type ℓ where
  good : A → Parsed A
  bad : Message → Parsed A

infixl 5 ◌>>=◌
abbrev pub ◌>>=◌ {ℓ κ} : {A : Type ℓ} {B : Type κ} → Parsed A → (A → Parsed B) → Parsed B
bad message >>= rest = bad message
good value >>= rest = rest value

-- `Option::ok_or`
abbrev pub or_bad {ℓ} : {A : Type ℓ} → Message → Option A → Parsed A
or_bad message none = bad message
or_bad message (some a) = good a

-- `Entry`; a position is not negative.
pub record Entry : Type 0 where
  pub key : Text
  pub value : Text
  pub group : Option Text
  pub position : ℕ

pub record ParseIssue : Type 0 where
  pub line : ℕ
  pub message : Message

pub record ParseReport : Type 0 where
  pub entries : List Entry
  pub issues : List ParseIssue

pub Parsed-cases {ℓ} :
    {A : Type ℓ} (p : Parsed A) → ((a : A) × (p ≡ good a)) ⊎ ((m : Message) × (p ≡ bad m))
Parsed-cases (good a) = inl (a, refl)
Parsed-cases (bad m) = inr (m, refl)
