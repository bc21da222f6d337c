-- ===== src/Dotenv/Values.antt =====
-- One assignment of src/dotenv/mod.rs: its key, its value in the three notations, and how a value
-- is written. The keys and values are texts of code points; the tests on bytes of the source are
-- true of ASCII bytes only, and stand here for the tests on characters.
use configdeck.Dotenv.Message.{
  Parsed, good, bad, ◌>>=◌, or_bad, Entry, expected_assignment, value_too_long, unknown_escape,
  unexpected_after_quoted, unterminated_double, unterminated_single, key_empty, key_too_long,
  key_bad_start, key_bad_character,
}
use configdeck.Prelude.Space.{trim, within}
use configdeck.Prelude.{
  ℕ, ◌*◌, Bool, true, false, not, ◌||◌, Option, none, some, [], ◌∷◌, ◌++◌, Text, codes, ◌==◌, ltb,
  if◌then◌else◌, any, all, is_empty, byte_len,
}

abbrev pub max_value_bytes : ℕ
max_value_bytes = 32 * 1024

abbrev pub is_ascii_alphabetic : ℕ → Bool
is_ascii_alphabetic c = within b'A' b'Z' c || within b'a' b'z' c

abbrev pub is_ascii_alphanumeric : ℕ → Bool
is_ascii_alphanumeric c = is_ascii_alphabetic c || within b'0' b'9' c

-- `str::strip_prefix`
unfoldable pub strip_prefix : Text → Text → Option Text
strip_prefix [] text = some text
strip_prefix (p ∷ ps) [] = none
strip_prefix (p ∷ ps) (c ∷ cs) = let rest = strip_prefix ps cs in if p == c then rest else none

-- `str::split_once` at a character
unfoldable pub split_once : ℕ → Text → Option (Text × Text)
split_once at [] = none
split_once at (c ∷ cs) =
    let rest = split_once at cs in
    if c == at
    then some ([], cs)
    else elim rest [ none ↦ none | some (before, after) ↦ some (c ∷ before, after) ]

abbrev pub is_key_start : ℕ → Bool
is_key_start c = c == b'_' || is_ascii_alphabetic c

abbrev pub is_key_character : ℕ → Bool
is_key_character c = c == b'_' || c == b'.' || is_ascii_alphanumeric c

-- the tests behind that on the length
key_characters : Text → Parsed (Unit {0})
key_characters [] = bad key_bad_start
key_characters (c ∷ cs) =
    if not (is_key_start c)
    then bad key_bad_start
    else if any (λ d. not (is_key_character d)) cs
    then bad key_bad_character
    else good tt

unfoldable pub validate_key_syntax : Text → Parsed (Unit {0})
unfolding key_characters
validate_key_syntax key =
    if is_empty key
    then bad key_empty
    else if ltb 255 (byte_len key)
    then bad key_too_long
    else key_characters key

unfoldable pub valid_key : Text → Bool
unfolding validate_key_syntax
valid_key key = elim (validate_key_syntax key) [ good u ↦ true | bad m ↦ false ]

-- what an escaped character stands for
unescape : ℕ → Option ℕ
unescape c =
    if c == b'n'
    then some b'\n'
    else if c == b'r'
    then some b'\r'
    else if c == b't'
    then some b'\t'
    else if c == b'\\'
    then some b'\\'
    else if c == b'"'
    then some b'"'
    else none

abbrev push : ℕ → Parsed Text → Parsed Text
push c (good text) = good (c ∷ text)
push c (bad message) = bad message

-- The loop of `parse_double_quoted`, with the flag `escaped`.
unfoldable pub double_quoted : Bool → Text → Parsed Text
unfolding unescape
double_quoted escaped [] = bad unterminated_double
double_quoted true (c ∷ cs) = elim (unescape c) [
  | none ↦ bad unknown_escape
  | some d ↦ push d (double_quoted false cs)
]
double_quoted false (c ∷ cs) = elim (c == b'\\') [
  | true ↦ double_quoted true cs
  | false ↦ elim (c == b'"') [
    | true ↦ if is_empty (trim cs) then good [] else bad unexpected_after_quoted
    | false ↦ push c (double_quoted false cs)
  ]
]

unfoldable pub parse_double_quoted : Text → Parsed Text
parse_double_quoted value = double_quoted false value

unfoldable pub parse_single_quoted : Text → Parsed Text
parse_single_quoted value = elim (split_once b'\'' value) [
  | none ↦ bad unterminated_single
  | some (before, after) ↦
      if is_empty (trim after) then good before else bad unexpected_after_quoted
]

unfoldable pub parse_value : Text → Parsed Text
parse_value value = elim (strip_prefix (codes "\"") value) [
  | some quoted ↦ parse_double_quoted quoted
  | none ↦ elim (strip_prefix (codes "'") value) [
    | some quoted ↦ parse_single_quoted quoted
    | none ↦ good value
  ]
]

-- `line.strip_prefix("export ").unwrap_or(line)`
unfoldable pub strip_export : Text → Text
strip_export line = elim (strip_prefix (codes "export ") line) [ none ↦ line | some rest ↦ rest ]

unfoldable pub parse_assignment : Text → Parsed Entry
parse_assignment line = do
  (before, raw_value) ← or_bad expected_assignment (split_once b'=' (strip_export line))
  let key = trim before
  valid ← validate_key_syntax key
  value ← parse_value (trim raw_value)
  if ltb max_value_bytes (byte_len value)
      then bad value_too_long
      else good (record { key = key; value = value; group = none; position = 0 })

-- the bytes of a value that is written without quotes
abbrev pub is_safe : ℕ → Bool
is_safe c =
    is_ascii_alphanumeric c
    || c == b'_'
    || c == b'-'
    || c == b'.'
    || c == b'/'
    || c == b':'
    || c == b'@'
    || c == b'%'
    || c == b'+'

-- How a character stands between double quotes; a line break stands for itself.
unfoldable pub escape : ℕ → Text
escape c =
    if c == b'\\'
    then codes "\\\\"
    else if c == b'"'
    then codes "\\\""
    else if c == b'\r'
    then codes "\\r"
    else if c == b'\t'
    then codes "\\t"
    else c ∷ []

unfoldable pub escape_all : Text → Text
escape_all [] = []
escape_all (c ∷ cs) = escape c ++ escape_all cs

unfoldable pub render_value : Text → Text
unfolding escape escape_all
render_value value =
    if is_empty value || all is_safe value then value else b'"' ∷ (escape_all value ++ (b'"' ∷ []))
