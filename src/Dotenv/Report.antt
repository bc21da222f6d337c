-- ===== src/Dotenv/Report.antt =====
-- The loop of `parse` of src/dotenv/mod.rs, and `parse` itself.
pub mod Entries
pub mod Sound
use configdeck.Dotenv.Message.{
  Parsed, good, bad, Entry, ParseIssue, ParseReport, exceeds_500_variables, duplicate_key,
  no_assignments,
}
use configdeck.Dotenv.Parse.{
  max_entries, lines, validate_input, parse_group_heading, infer_plain_group,
  parse_multiline_assignment,
}
use configdeck.Dotenv.Values.{strip_prefix}
use configdeck.Prelude.Space.{trim}
use configdeck.Prelude.{
  ℕ, zero, suc, ◌+◌, Bool, true, false, ◌&&◌, Option, none, some, List, [], ◌∷◌, ◌++◌, Text, codes,
  ◌==◌, leb, if◌then◌else◌, any, is_empty, length, eq_text,
}

-- What the loop keeps from line to line; `keys` are the keys taken so far.
pub record State : Type 0 where
  pub report : ParseReport
  pub keys : List Text
  pub current_group : Option Text
  pub section_boundary : Bool

-- One round goes on, past some lines that it consumed, or breaks off.
pub data Round : Type 0 where
  continues : State → ℕ → Round
  breaks : State → Round

abbrev pub add_issue : ParseReport → ParseIssue → ParseReport
add_issue r issue = record r { issues = r.issues ++ (issue ∷ []) }

abbrev pub add_entry : ParseReport → Entry → ParseReport
add_entry r e = record r { entries = r.entries ++ (e ∷ []) }

-- a comment, without its `#` and trimmed; `rest` is the lines behind it
unfoldable pub comment_line : State → Text → List Text → State
comment_line st comment rest = elim (parse_group_heading comment) [
  | some group ↦ record st { current_group = some group; section_boundary = false }
  | none ↦
      if st.section_boundary
      then elim (infer_plain_group rest comment) [
        | some group ↦ record st { current_group = some group; section_boundary = false }
        | none ↦ st
      ]
      else st
]

-- the result of an assignment that starts on the line `number`
unfoldable pub assignment : State → ℕ → Parsed Entry → State
assignment st number (bad message) = record st {
  report = add_issue st.report (record { line = number; message = message });
}
assignment st number (good entry) =
    if any (eq_text entry.key) st.keys
    then record st {
      report = add_issue st.report (record { line = number; message = duplicate_key });
    }
    else record st {
      report =
          add_entry st.report
            (record entry { group = st.current_group; position = length st.report.entries });
      keys = st.keys ++ (entry.key ∷ []);
      section_boundary = false;
    }

-- a line that is neither blank nor a comment
unfoldable pub assignment_line : State → ℕ → Text → List Text → Round
unfolding assignment
assignment_line st number line rest =
    if leb max_entries (length st.report.entries)
    then breaks (record st {
      report = add_issue st.report (record { line = number; message = exceeds_500_variables });
    })
    else let (result, taken) = parse_multiline_assignment line rest in
      continues (assignment st number result) taken

-- The line that a number from 1 says where it stands; the first may start with a byte order mark.
abbrev pub without_mark : ℕ → Text → Text
without_mark number line =
    if number == 1
    then elim (strip_prefix (0xfeff ∷ []) line) [ none ↦ line | some rest ↦ rest ]
    else line

unfoldable pub round : State → ℕ → Text → List Text → Round
unfolding comment_line assignment_line
round st number physical rest =
    let line = without_mark number physical in
    let trimmed = trim line in
    if is_empty trimmed
    then continues (record st { section_boundary = true }) 0
    else elim (strip_prefix (codes "#") trimmed) [
      | some comment ↦ continues (comment_line st (trim comment) rest) 0
      | none ↦ assignment_line st number line rest
    ]

-- `skip` lines are consumed already.
unfoldable pub rounds : State → ℕ → ℕ → List Text → ParseReport
unfolding round
rounds st number skip [] = st.report
rounds st number (suc skip) (line ∷ rest) = rounds st (number + 1) skip rest
rounds st number zero (line ∷ rest) = elim (round st number line rest) [
  | continues st' taken ↦ rounds st' (number + 1) taken rest
  | breaks st' ↦ st'.report
]

abbrev pub start : State
start = record {
  report = record { entries = []; issues = [] };
  keys = [];
  current_group = none;
  section_boundary = true;
}

-- The issue that is added where there is nothing else to say.
abbrev pub finish : ParseReport → ParseReport
finish r =
    if is_empty r.entries && is_empty r.issues
    then add_issue r (record { line = 0; message = no_assignments })
    else r

unfoldable pub parse : Text → ParseReport
unfolding rounds
parse input = elim (validate_input input) [
  | some issue ↦ record { entries = []; issues = issue ∷ [] }
  | none ↦ finish (rounds start 1 0 (lines input))
]
