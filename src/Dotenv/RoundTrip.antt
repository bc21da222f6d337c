-- ===== src/Dotenv/RoundTrip.antt =====
-- What is written for a value is read back.
use configdeck.Dotenv.Message.{good}
use configdeck.Dotenv.Values.{
  double_quoted, parse_double_quoted, parse_value, parse_assignment, escape, escape_all,
  render_value, is_safe, strip_prefix, split_once, strip_export, validate_key_syntax, valid_key,
  max_value_bytes, is_key_character,
}
use configdeck.Dotenv.Keys.{IsKey-characters, valid_key_iff, valid_key-good}
use configdeck.Prelude.Space.{trim, trim_start, trim_end, is_whitespace}
use configdeck.Prelude.{
  ℕ, ◌≤◌, ◌≡◌, refl, ap, ◌∙◌, true, false, none, some, [], ◌∷◌, ◌++◌, Text, arith, is_empty, all,
  byte_len, codes, Bool-cases, inl, inr, ◌||◌, All, all_iff, All-map, not, ◌==◌,
}
use mathlib.Core.List.{append_assoc}

double_quoted-escape :
    (c : ℕ) (rest tail : Text)
    → double_quoted false tail ≡ good rest
    → double_quoted false (escape c ++ tail) ≡ good (c ∷ rest)
unfolding double_quoted escape
double_quoted-escape c rest tail h = ground (arith, h)

double_quoted-escape_all :
    (value : Text) → double_quoted false (escape_all value ++ (b'"' ∷ [])) ≡ good value
unfolding double_quoted escape_all trim trim_start trim_end
double_quoted-escape_all [] = refl
double_quoted-escape_all (c ∷ cs) =
    rw (append_assoc (escape c) (escape_all cs) (b'"' ∷ []))
      (double_quoted-escape c cs (escape_all cs ++ (b'"' ∷ [])) (double_quoted-escape_all cs))

bare_value :
    (value : Text) → is_empty value || all is_safe value ≡ true → parse_value value ≡ good value
unfolding parse_value strip_prefix
bare_value [] h = refl
bare_value (c ∷ cs) h = ground arith

-- Whatever the value, what is written for it is read back as that value.
pub parse_value-render : (value : Text) → parse_value (render_value value) ≡ good value
unfolding render_value parse_value parse_double_quoted strip_prefix
parse_value-render value = elim (Bool-cases (is_empty value || all is_safe value)) [
  | inl e ↦ rw e (bare_value value e)
  | inr e ↦ rw e (double_quoted-escape_all value)
]

-- a text without white space
abbrev IsSolid : Text → Type 0
IsSolid text = All (λ c. is_whitespace c ≡ false) text

trim_start-IsSolid : (text : Text) → IsSolid text → trim_start text ≡ text
unfolding trim_start
trim_start-IsSolid [] s = refl
trim_start-IsSolid (c ∷ cs) s = ground (arith, s.0)

trim_end-IsSolid : (text : Text) → IsSolid text → trim_end text ≡ text
unfolding trim_end
trim_end-IsSolid [] s = refl
trim_end-IsSolid (c ∷ cs) s = ground (arith, s.0, trim_end-IsSolid cs s.1)

trim-IsSolid : (text : Text) → IsSolid text → trim text ≡ text
unfolding trim
trim-IsSolid text s = ap trim_end (trim_start-IsSolid text s) ∙ trim_end-IsSolid text s

trim_end-quote : (text : Text) → trim_end (text ++ (b'"' ∷ [])) ≡ text ++ (b'"' ∷ [])
unfolding trim_end is_whitespace
trim_end-quote [] = refl
trim_end-quote (c ∷ []) = ground arith
trim_end-quote (c ∷ d ∷ cs) = ground (arith, trim_end-quote (d ∷ cs))

safe_solid : (c : ℕ) → is_safe c ≡ true → is_whitespace c ≡ false
unfolding is_whitespace
safe_solid c h = ground arith

key_solid : (c : ℕ) → is_key_character c ≡ true → is_whitespace c ≡ false
unfolding is_whitespace
key_solid c h = ground arith

bare-IsSolid : (value : Text) → is_empty value || all is_safe value ≡ true → IsSolid value
bare-IsSolid [] h = tt
bare-IsSolid (c ∷ cs) h = All-map _ _ safe_solid (c ∷ cs) ((all_iff is_safe (c ∷ cs)).0 h)

trim-render_value : (value : Text) → trim (render_value value) ≡ render_value value
unfolding trim trim_start render_value is_whitespace
trim-render_value value = elim (Bool-cases (is_empty value || all is_safe value)) [
  | inl e ↦ rw e (trim-IsSolid value (bare-IsSolid value e))
  | inr e ↦ rw e (trim_end-quote (b'"' ∷ escape_all value))
]

module _ (rest : Text) where
  split_once-key :
      (key : Text)
      → All (λ d. is_key_character d ≡ true) key
      → split_once b'=' (key ++ (b'=' ∷ rest)) ≡ some (key, rest)
  unfolding split_once
  split_once-key [] k = refl
  split_once-key (c ∷ cs) k = ground (arith, k.0, split_once-key cs k.1)

  -- A prefix that ends in a blank and has no equals sign is none of an assignment.
  strip_prefix-key :
      (prefix key : Text)
      → all (λ c. not (c == b'=')) prefix ≡ true
      → All (λ d. is_key_character d ≡ true) key
      → strip_prefix (prefix ++ (b' ' ∷ [])) (key ++ (b'=' ∷ rest)) ≡ none
  unfolding strip_prefix
  strip_prefix-key [] [] p k = refl
  strip_prefix-key [] (c ∷ cs) p k = ground (arith, k.0)
  strip_prefix-key (x ∷ xs) [] p k = ground arith
  strip_prefix-key (x ∷ xs) (c ∷ cs) p k = ground (arith, strip_prefix-key xs cs (ground arith) k.1)

  strip_export-key :
      (key : Text)
      → All (λ d. is_key_character d ≡ true) key
      → strip_export (key ++ (b'=' ∷ rest)) ≡ key ++ (b'=' ∷ rest)
  unfolding strip_export
  strip_export-key key k =
      let other : strip_prefix (codes "export ") (key ++ (b'=' ∷ rest)) ≡ none =
        strip_prefix-key (codes "export") key refl k in
      rw (strip_export, other) refl

parse_assignment-parts :
    (line before raw value : Text)
    → split_once b'=' (strip_export line) ≡ some (before, raw)
    → validate_key_syntax (trim before) ≡ good tt
    → parse_value (trim raw) ≡ good value
    → byte_len value ≤ max_value_bytes
    → parse_assignment line
      ≡ good (record { key = trim before; value = value; group = none; position = 0 })
unfolding parse_assignment
parse_assignment-parts line before raw value split valid read small =
    rw (split, valid, read) (ground (arith, small))

-- A valid key, an equals sign and what is written for a value of at most 32 KiB are read back as
-- that key and that value.
pub parse_assignment-render :
    (key value : Text)
    → valid_key key ≡ true
    → byte_len value ≤ max_value_bytes
    → parse_assignment (key ++ (b'=' ∷ render_value value))
      ≡ good (record { key = key; value = value; group = none; position = 0 })
parse_assignment-render key value valid small =
    let k = IsKey-characters key ((valid_key_iff key).0 valid) in
    let written = render_value value in
    let bare = trim-IsSolid key (All-map _ _ key_solid key k) in
    let split : split_once b'=' (strip_export (key ++ (b'=' ∷ written))) ≡ some (key, written) =
      rw (strip_export-key written key k) (split_once-key written key k) in
    let checked : validate_key_syntax (trim key) ≡ good tt = rw bare (valid_key-good key valid) in
    let read : parse_value (trim written) ≡ good value =
      rw (trim-render_value value) (parse_value-render value) in
    parse_assignment-parts (key ++ (b'=' ∷ written)) key written value split checked read small
    ∙ rw bare refl
