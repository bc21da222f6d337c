-- ===== src/Variables/Validate.antt =====
-- The `validate_*` functions of src/variables/mod.rs and `validate_description` of
-- src/services/mod.rs. Texts are code points. Whether a text parses as a URI with an http or https
-- scheme and an authority is a parameter (the crate http).
use configdeck.Errors.{Result, ok, err, invalid_request}
use configdeck.Prelude.Int.{ℤ, pos, negsuc}
use configdeck.Prelude.Space.{trim, is_control}
use configdeck.Prelude.{
  ℕ, ◌+◌, ◌*◌, ◌-◌, ◌^◌, Bool, false, not, ◌&&◌, ◌||◌, [], ◌∷◌, Option, none, some, Text, codes,
  eq_text, ◌==◌, ltb, leb, if◌then◌else◌, length, byte_len, any, all, is_empty,
}

abbrev pub max_value_bytes : ℕ
max_value_bytes = 32 * 1024

abbrev pub max_reason_chars : ℕ
max_reason_chars = 1000

abbrev is_digit : ℕ → Bool
is_digit c = leb b'0' c && leb c b'9'

decimal : ℕ → Text → ℕ
decimal acc [] = acc
decimal acc (c ∷ cs) = decimal (acc * 10 + (c - b'0')) cs

-- digits only, at least one of them, and at most `limit`
is_decimal : ℕ → Text → Bool
unfolding decimal
is_decimal limit digits =
    not (is_empty digits) && all is_digit digits && leb (decimal 0 digits) limit

-- `value.parse::<i64>().is_ok()`
unfoldable pub is_i64 : Text → Bool
unfolding is_decimal
is_i64 [] = false
is_i64 (c ∷ cs) =
    if c == b'-'
    then is_decimal (2 ^ 63) cs
    else if c == b'+'
    then is_decimal (2 ^ 63 - 1) cs
    else is_decimal (2 ^ 63 - 1) (c ∷ cs)

abbrev is_boolean : Text → Bool
is_boolean value = eq_text value (codes "true") || eq_text value (codes "false")

unfoldable pub validate_visibility : Text → Result Text
validate_visibility value =
    if eq_text value (codes "public") || eq_text value (codes "restricted")
    then ok value
    else err invalid_request

unfoldable pub validate_value_type : Text → Result Text
validate_value_type value =
    if any (eq_text value)
      (codes "string" ∷ codes "boolean" ∷ codes "integer" ∷ codes "url" ∷ codes "multiline" ∷ [])
    then ok value
    else err invalid_request

unfoldable pub validate_group_name : Option Text → Result (Option Text)
validate_group_name none = ok none
validate_group_name (some value) =
    let name = trim value in
    if is_empty name
    then ok none
    else if ltb 80 (length name) || any is_control name
    then err invalid_request
    else ok (some name)

unfoldable pub validate_display_order : ℤ → Result ℤ
validate_display_order (negsuc n) = err invalid_request
validate_display_order (pos n) = if ltb n 500 then ok (pos n) else err invalid_request

unfoldable pub validate_reason : Text → Result Text
validate_reason value =
    let reason = trim value in
    if is_empty reason || ltb max_reason_chars (length reason)
    then err invalid_request
    else ok reason

unfoldable pub validate_description : Option Text → Result (Option Text)
validate_description none = ok none
validate_description (some value) =
    let text = trim value in
    if is_empty text
    then ok none
    else if ltb 1000 (length text)
    then err invalid_request
    else ok (some text)

module _ (is_url : Text → Bool) where
  unfoldable pub validate_value : Text → Text → Result (Unit {0})
  validate_value value value_type =
      if ltb max_value_bytes (byte_len value)
      then err invalid_request
      else if eq_text value_type (codes "boolean") && not (is_boolean value)
      then err invalid_request
      else if eq_text value_type (codes "integer") && not (is_i64 value)
      then err invalid_request
      else if eq_text value_type (codes "url") && not (is_url value)
      then err invalid_request
      else ok tt

  -- The type that an import proposes for a value.
  unfoldable pub suggest_value_type : Text → Text
  suggest_value_type value =
      if any (λ c. c == b'\n' || c == b'\r') value
      then codes "multiline"
      else if is_boolean value
      then codes "boolean"
      else if is_i64 value
      then codes "integer"
      else if is_url value
      then codes "url"
      else codes "string"
