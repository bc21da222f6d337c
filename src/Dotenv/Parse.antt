-- ===== src/Dotenv/Parse.antt =====
-- `parse` of src/dotenv/mod.rs. Lines are numbered from 1; `skip` counts the lines that a value of
-- several lines has consumed ahead of the loop, which is how far `next_line` is beyond its line.
use configdeck.Dotenv.Message.{
  Parsed, good, bad, Entry, ParseIssue, input_too_long, nul_byte, expected_assignment,
}
use configdeck.Dotenv.Values.{
  strip_prefix, split_once, strip_export, validate_key_syntax, parse_assignment,
}
use configdeck.Prelude.Space.{trim, trim_start}
use configdeck.Prelude.{
  ℕ, suc, ◌*◌, Bool, true, false, not, ◌&&◌, ◌||◌, Option, none, some, List, [], ◌∷◌, ◌++◌, Text,
  codes, ◌==◌, ltb, leb, if◌then◌else◌, any, filter, is_empty, byte_len, length, map,
}

abbrev pub max_input_bytes : ℕ
max_input_bytes = 256 * 1024

abbrev pub max_entries : ℕ
max_entries = 500

-- `str::lines`: the parts between line feeds, without a carriage return at their end, and without
-- an empty part at the end of the text.
drop_return : Text → Text
drop_return [] = []
drop_return (c ∷ cs) =
    let rest = drop_return cs in if c == b'\r' && is_empty cs then [] else c ∷ rest

split_lines : Text → Text × List Text
split_lines [] = ([], [])
split_lines (c ∷ cs) =
    let (first, rest) = split_lines cs in
    if c == b'\n' then ([], first ∷ rest) else (c ∷ first, rest)

drop_last_empty : List Text → List Text
drop_last_empty [] = []
drop_last_empty (l ∷ ls) =
    let rest = drop_last_empty ls in if is_empty l && is_empty ls then [] else l ∷ rest

-- The last line keeps a carriage return that no line feed follows.
drop_returns : List Text → List Text
drop_returns [] = []
drop_returns (l ∷ []) = l ∷ []
drop_returns (l ∷ m ∷ ls) = drop_return l ∷ drop_returns (m ∷ ls)

unfoldable pub lines : Text → List Text
unfolding drop_return split_lines drop_last_empty drop_returns
lines input = let (first, rest) = split_lines input in drop_last_empty (drop_returns (first ∷ rest))

unfoldable pub validate_input : Text → Option ParseIssue
validate_input input =
    if ltb max_input_bytes (byte_len input)
    then some (record { line = 0; message = input_too_long })
    else if any (λ c. c == 0) input
    then some (record { line = 0; message = nul_byte })
    else none

is_decoration : ℕ → Bool
is_decoration c = c == b'=' || c == b'-' || c == b'*'

is_padding : ℕ → Bool
unfolding is_decoration
is_padding c = is_decoration c || c == b' '

-- `trim_matches`
trim_padding_start : Text → Text
unfolding is_padding
trim_padding_start [] = []
trim_padding_start (c ∷ cs) =
    let rest = trim_padding_start cs in if is_padding c then rest else c ∷ cs

trim_padding_end : Text → Text
unfolding is_padding
trim_padding_end [] = []
trim_padding_end (c ∷ cs) =
    let rest = trim_padding_end cs in if is_padding c && is_empty rest then [] else c ∷ rest

unfoldable pub normalize_group_name : Text → Option Text
unfolding trim_padding_start trim_padding_end
normalize_group_name value =
    let trimmed = trim (trim_padding_end (trim_padding_start (trim value))) in
    if not (is_empty trimmed) && leb (length trimmed) 80 then some trimmed else none

-- the last character
abbrev last : Text → Option ℕ
last [] = none
last (c ∷ []) = some c
last (c ∷ d ∷ cs) = last (d ∷ cs)

-- `strip_suffix` of one character
strip_last : ℕ → Text → Option Text
strip_last at [] = none
strip_last at (c ∷ []) = if c == at then some [] else none
strip_last at (c ∷ d ∷ cs) = elim (strip_last at (d ∷ cs)) [ none ↦ none | some t ↦ some (c ∷ t) ]

unfoldable pub parse_group_heading : Text → Option Text
unfolding strip_last
parse_group_heading comment = elim (strip_prefix (codes "[") comment) [
  | none ↦ none
  | some rest ↦ elim (strip_last b']' rest) [ none ↦ none | some name ↦ normalize_group_name name ]
]

abbrev test : (ℕ → Bool) → Option ℕ → Bool
test p none = false
test p (some c) = p c

abbrev head : Text → Option ℕ
head [] = none
head (c ∷ cs) = some c

starts_comment : Text → Bool
starts_comment line = test (λ c. c == b'#') (head line)

-- the first line behind the comment's next one that is no comment, and whether it is an assignment
described : List Text → Bool
unfolding starts_comment
described [] = false
described (l ∷ ls) =
    let rest = described ls in
    if starts_comment l then rest else elim (parse_assignment l) [ good e ↦ true | bad m ↦ false ]

-- `following` is the rest of the lines, trimmed and without the empty ones.
is_heading : Text → List Text → Bool
unfolding starts_comment described is_decoration
is_heading comment [] = false
is_heading comment (next ∷ following) =
    (test is_decoration (head comment) || test is_decoration (last comment))
    || starts_comment next && described following

ends_sentence : ℕ → Bool
ends_sentence c = c == b'.' || c == b':' || c == b';'

-- `infer_plain_group`; `rest` is `lines[index + 1..]`.
unfoldable pub infer_plain_group : List Text → Text → Option Text
unfolding is_heading ends_sentence
infer_plain_group rest comment = elim (normalize_group_name comment) [
  | none ↦ none
  | some candidate ↦
      let following = filter (λ l. not (is_empty l)) (map trim rest) in
      if (test ends_sentence (last candidate) || any (λ c. c == b'=') candidate)
        || not (is_heading comment following)
      then none
      else some candidate
]

-- The loop of `quoted_value_is_closed`, with the flag `escaped`.
unfoldable pub is_closed : ℕ → Bool → Text → Bool
is_closed quote escaped [] = false
is_closed quote true (c ∷ cs) = is_closed quote false cs
is_closed quote false (c ∷ cs) = elim (quote == b'"' && c == b'\\') [
  | true ↦ is_closed quote true cs
  | false ↦ c == quote || is_closed quote false cs
]

-- The loop over the continuations: the logical line, and how many lines it took.
unfoldable pub continue_line : ℕ → Text → List Text → Text × ℕ
unfolding is_closed
continue_line quote logical_line [] = (logical_line, 0)
continue_line quote logical_line (l ∷ ls) =
    let joined = logical_line ++ (b'\n' ∷ l) in
    let (whole, taken) = continue_line quote joined ls in
    if is_closed quote false l then (joined, 1) else (whole, suc taken)

-- the quote that a value starts with
abbrev pub opening_quote : Text → Option ℕ
opening_quote [] = none
opening_quote (c ∷ cs) = if c == b'\'' || c == b'"' then some c else none

abbrev pub tail : Text → Text
tail [] = []
tail (c ∷ cs) = cs

-- The part behind the check of the key.
unfoldable pub parse_quoted : Text → Text → List Text → Parsed Entry × ℕ
unfolding is_closed continue_line
parse_quoted line raw_value rest = elim (opening_quote raw_value) [
  | none ↦ (parse_assignment line, 0)
  | some quote ↦
      if is_closed quote false (tail raw_value)
      then (parse_assignment line, 0)
      else let (logical_line, taken) = continue_line quote line rest in
        (parse_assignment logical_line, taken)
]

-- The result, and how far `next_line` moves.
unfoldable pub parse_multiline_assignment : Text → List Text → Parsed Entry × ℕ
unfolding parse_quoted
parse_multiline_assignment physical rest =
    let line = trim_start physical in
    elim (split_once b'=' (strip_export line)) [
      | none ↦ (bad expected_assignment, 0)
      | some (key, raw_value) ↦ elim (validate_key_syntax (trim key)) [
        | bad message ↦ (bad message, 0)
        | good valid ↦ parse_quoted line (trim_start raw_value) rest
      ]
    ]
