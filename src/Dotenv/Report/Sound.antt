-- ===== src/Dotenv/Report/Sound.antt =====
-- What every report is like.
use configdeck.Dotenv.Message.{no_assignments, Parsed, good, bad, Entry, ParseReport}
use configdeck.Dotenv.Parse.{max_entries, parse_multiline_assignment, validate_input, lines}
use configdeck.Dotenv.Report.{
  State, Round, without_mark, continues, breaks, comment_line, assignment, assignment_line, round,
  rounds, start, finish, parse,
}
use configdeck.Dotenv.Values.{strip_prefix}
use configdeck.Prelude.Space.{trim}
use configdeck.Prelude.{
  ℕ, zero, suc, ◌+◌, ◌≤◌, ◌≡◌, refl, sym, ap, ◌∙◌, false, ◌&&◌, List, [], ◌∷◌, ◌++◌, Text, arith,
  map, is_empty, length, any, eq_text, Bool-cases, Option-cases, inl, inr, ◌⊎◌, leb, codes,
}
use configdeck.Dotenv.Report.Entries.{
  IsEntry, IsReport, parse_multiline_assignment-IsEntry, map-append_one, add_entry-IsReport,
  empty_report,
}

-- The keys that the loop remembers are those of the entries.
record IsGoing (st : State) : Type 0 where
  pub report : IsReport st.report.entries
  pub keys : st.keys ≡ map (λ e. e.key) st.report.entries

comment_line_keeps :
    (st : State) (comment : Text) (rest : List Text)
    → ((comment_line st comment rest).report ≡ st.report)
      × ((comment_line st comment rest).keys ≡ st.keys)
unfolding comment_line
comment_line_keeps st comment rest = (ground arith, ground arith)

comment_line-IsGoing :
    (st : State) (comment : Text) (rest : List Text)
    → IsGoing st
    → IsGoing (comment_line st comment rest)
comment_line-IsGoing st comment rest g =
    let (report, keys) = comment_line_keeps st comment rest in
    record { report = rw report g.report; keys = keys ∙ g.keys ∙ rw report refl }

assignment-IsGoing :
    (st : State) (number : ℕ) (result : Parsed Entry)
    → IsGoing st
    → ((e : Entry) → result ≡ good e → IsEntry e)
    → suc (length st.report.entries) ≤ max_entries
    → IsGoing (assignment st number result)
unfolding assignment
assignment-IsGoing st number (bad m) g s room = record { report = g.report; keys = g.keys }
assignment-IsGoing st number (good e) g s room = elim (Bool-cases (any (eq_text e.key) st.keys)) [
  | inl p ↦ rw p (record { report = g.report; keys = g.keys })
  | inr p ↦
      let placed : Entry = record e {
        group = st.current_group;
        position = length st.report.entries;
      } in
      rw p (record {
        report =
            add_entry-IsReport st.report.entries placed g.report (s e refl) (rw g.keys at p) refl
              room;
        keys = ap (λ l. l ++ (e.key ∷ [])) g.keys ∙ sym (map-append_one st.report.entries placed);
      })
]

Round-cases :
    (r : Round)
    → ((st : State) × (taken : ℕ) × (r ≡ continues st taken)) ⊎ ((st : State) × (r ≡ breaks st))
Round-cases (continues st taken) = inl (st, taken, refl)
Round-cases (breaks st) = inr (st, refl)

is_empty-append_one {ℓ} : {A : Type ℓ} (xs : List A) (x : A) → is_empty (xs ++ (x ∷ [])) ≡ false
is_empty-append_one [] x = refl
is_empty-append_one (y ∷ ys) x = refl

finish_speaks :
    (r : ParseReport) → (is_empty (finish r).entries && is_empty (finish r).issues) ≡ false
finish_speaks r = elim (Bool-cases (is_empty r.entries && is_empty r.issues)) [
  | inl p ↦
      ground (arith, is_empty-append_one r.issues (record { line = 0; message = no_assignments }))
  | inr p ↦ rw p p
]

-- After a round the loop goes on as before, or stops with a report.
abbrev IsRound : Round → Type 0
IsRound (continues st taken) = IsGoing st
IsRound (breaks st) = IsReport st.report.entries

assignment_line-IsRound :
    (st : State) (number : ℕ) (line : Text) (rest : List Text)
    → IsGoing st
    → IsRound (assignment_line st number line rest)
unfolding assignment_line
assignment_line-IsRound st number line rest g =
    elim (Bool-cases (leb max_entries (length st.report.entries))) [
      | inl p ↦ rw p g.report
      | inr p ↦ rw p (
          assignment-IsGoing st number (parse_multiline_assignment line rest).0 g
            (λ e h. parse_multiline_assignment-IsEntry line rest h) (ground arith))
    ]

round-IsRound :
    (st : State) (number : ℕ) (line : Text) (rest : List Text)
    → IsGoing st
    → IsRound (round st number line rest)
unfolding round
round-IsRound st number physical rest g =
    let line = without_mark number physical in
    elim (Bool-cases (is_empty (trim line))) [
      | inl p ↦ rw p (record { report = g.report; keys = g.keys })
      | inr p ↦ elim (Option-cases (strip_prefix (codes "#") (trim line))) [
        | inl q ↦ rw (p, q) (assignment_line-IsRound st number line rest g)
        | inr (comment, q) ↦ rw (p, q) (comment_line-IsGoing st (trim comment) rest g)
      ]
    ]

rounds-IsReport :
    (st : State) (number skip : ℕ) (ls : List Text)
    → IsGoing st
    → IsReport (rounds st number skip ls).entries
unfolding rounds
rounds-IsReport st number skip [] g = g.report
rounds-IsReport st number (suc skip) (line ∷ rest) g = rounds-IsReport st (number + 1) skip rest g
rounds-IsReport st number zero (line ∷ rest) g = elim (Round-cases (round st number line rest)) [
  | inl (st', taken, p) ↦
      rw (rounds, p)
        (rounds-IsReport st' (number + 1) taken rest
          (rw p at (round-IsRound st number line rest g)))
  | inr (st', p) ↦ rw (rounds, p) (rw p at (round-IsRound st number line rest g))
]

finish-IsReport : (r : ParseReport) → IsReport r.entries → IsReport (finish r).entries
finish-IsReport r h = elim (Bool-cases (is_empty r.entries && is_empty r.issues)) [
  | inl p ↦ rw p h
  | inr p ↦ rw p h
]

-- Whatever the input, the report has 500 entries at most, each with a valid key and a value of
-- 32 KiB at most, no key twice, numbered in order from 0.
pub parse-IsReport : (input : Text) → IsReport (parse input).entries
unfolding parse
parse-IsReport input = elim (Option-cases (validate_input input)) [
  | inr (issue, p) ↦ rw (parse, p) empty_report
  | inl p ↦
      rw (parse, p)
        (finish-IsReport (rounds start 1 0 (lines input))
          (rounds-IsReport start 1 0 (lines input) (record { report = empty_report; keys = refl })))
]

-- Every report says something: it has an entry or an issue.
pub parse_speaks :
    (input : Text) → (is_empty (parse input).entries && is_empty (parse input).issues) ≡ false
unfolding parse
parse_speaks input = elim (Option-cases (validate_input input)) [
  | inr (issue, p) ↦ rw (parse, p) refl
  | inl p ↦ rw (parse, p) (finish_speaks (rounds start 1 0 (lines input)))
]
