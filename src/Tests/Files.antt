-- ===== src/Tests/Files.antt =====
-- Environment files, parsed.
use configdeck.Dotenv.Keys.{IsKey, valid_key_iff}
use configdeck.Dotenv.Message.{good, ParseReport, duplicate_key, key_bad_start}
use configdeck.Dotenv.Parse.{
  lines, validate_input, normalize_group_name, parse_group_heading, infer_plain_group, is_closed,
  continue_line, parse_quoted, parse_multiline_assignment,
}
use configdeck.Dotenv.Report.Entries.{IsReport}
use configdeck.Dotenv.Report.Sound.{parse-IsReport, parse_speaks}
use configdeck.Dotenv.Report.{comment_line, assignment, assignment_line, round, rounds, parse}
use configdeck.Dotenv.RoundTrip.{parse_value-render, parse_assignment-render}
use configdeck.Dotenv.Values.{
  strip_prefix, split_once, strip_export, validate_key_syntax, valid_key, double_quoted,
  parse_double_quoted, parse_single_quoted, parse_value, parse_assignment, render_value, escape,
  escape_all,
}
use configdeck.Prelude.Space.{trim, trim_start, trim_end, is_whitespace}
use configdeck.Prelude.{
  ◌≡◌, ◌↔◌, ◌&&◌, refl, true, false, none, some, [], ◌∷◌, ◌++◌, Text, codes, arith, eq_text,
  is_empty,
}

abbrev file : Text
file =
    codes "# [db]\n"
    ++ (codes "export A.B = \"x\\ty\" \n"
        ++ (codes "A.B=1\n" ++ (codes "C='two\n" ++ (codes "lines'\n" ++ codes "2D=5"))))

abbrev report : ParseReport
report = record {
  entries =
      record { key = codes "A.B"; value = codes "x\ty"; group = some (codes "db"); position = 0 }
      ∷ record {
        key = codes "C";
        value = codes "two\nlines";
        group = some (codes "db");
        position = 1;
      }
      ∷ [];
  issues =
      record { line = 3; message = duplicate_key }
      ∷ record { line = 6; message = key_bad_start }
      ∷ [];
}

run_file : parse file ≡ report
unfolding parse validate_input lines rounds round comment_line assignment assignment_line
    parse_group_heading normalize_group_name infer_plain_group is_closed continue_line parse_quoted
    parse_multiline_assignment strip_prefix split_once strip_export validate_key_syntax
    double_quoted parse_double_quoted parse_single_quoted parse_value parse_assignment trim
    trim_start trim_end is_whitespace eq_text
run_file = refl

abbrev awkward : Text
awkward = codes "a \"b\"\\\n"

run_render : render_value awkward ≡ codes "\"a \\\"b\\\"\\\\\n\""
unfolding render_value escape escape_all
run_render = refl

valid_key_iff_example : (valid_key (codes "A.B") ≡ true) ↔ IsKey (codes "A.B")
valid_key_iff_example = valid_key_iff (codes "A.B")

key_passes : valid_key (codes "A.B") ≡ true
unfolding valid_key validate_key_syntax
key_passes = refl

parse_value-render_example : parse_value (render_value awkward) ≡ good awkward
parse_value-render_example = parse_value-render awkward

parse_assignment-render_example :
    parse_assignment (codes "A.B" ++ (b'=' ∷ render_value awkward))
    ≡ good (record { key = codes "A.B"; value = awkward; group = none; position = 0 })
parse_assignment-render_example =
    parse_assignment-render (codes "A.B") awkward key_passes (omega arith)

parse-IsReport_example : IsReport (parse file).entries
parse-IsReport_example = parse-IsReport file

parse_speaks_example : (is_empty (parse file).entries && is_empty (parse file).issues) ≡ false
parse_speaks_example = parse_speaks file
