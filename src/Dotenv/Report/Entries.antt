-- ===== src/Dotenv/Report/Entries.antt =====
-- What an entry and a list of entries are like.
use configdeck.Dotenv.Message.{Parsed-cases, good, Entry}
use configdeck.Dotenv.Parse.{
  max_entries, parse_multiline_assignment, parse_quoted, opening_quote, tail, is_closed,
  continue_line,
}
use configdeck.Dotenv.Values.{
  valid_key, validate_key_syntax, parse_assignment, split_once, strip_export, max_value_bytes,
}
use configdeck.Prelude.Space.{trim, trim_start}
use configdeck.Prelude.{
  ℕ, suc, ◌+◌, ◌≤◌, ◌≡◌, ◌≢◌, refl, ap, true, false, List, [], ◌∷◌, ◌++◌, Text, arith, map,
  byte_len, length, any, eq_text, eq_text_iff, All, All-append, length-append, Bool-cases,
  Option-cases, inl, inr,
}

-- The entry has a valid key and a value of 32 KiB at most.
abbrev pub IsEntry : Entry → Type 0
IsEntry e = (valid_key e.key ≡ true) × (byte_len e.value ≤ max_value_bytes)

-- No text of the list stands in it twice.
abbrev pub IsDistinct : List Text → Type 0
IsDistinct [] = Unit
IsDistinct (k ∷ ks) = All (λ j. j ≢ k) ks × IsDistinct ks

-- The entries are numbered in order, from `n` on.
abbrev pub IsNumbered : ℕ → List Entry → Type 0
IsNumbered n [] = Unit
IsNumbered n (e ∷ es) = (e.position ≡ n) × IsNumbered (n + 1) es

pub record IsReport (entries : List Entry) : Type 0 where
  pub sound : All IsEntry entries
  pub distinct : IsDistinct (map (λ e. e.key) entries)
  pub numbered : IsNumbered 0 entries
  pub bounded : length entries ≤ max_entries

parse_assignment-IsEntry : (line : Text) {e : Entry} → parse_assignment line ≡ good e → IsEntry e
unfolding parse_assignment valid_key
parse_assignment-IsEntry line h = (ground arith, ground arith)

parse_quoted-IsEntry :
    (line raw_value : Text) (rest : List Text) {e : Entry}
    → (parse_quoted line raw_value rest).0 ≡ good e
    → IsEntry e
unfolding parse_quoted
parse_quoted-IsEntry line raw_value rest h = elim (Option-cases (opening_quote raw_value)) [
  | inl p ↦ parse_assignment-IsEntry line (rw (parse_quoted, p) at h)
  | inr (quote, p) ↦ elim (Bool-cases (is_closed quote false (tail raw_value))) [
    | inl q ↦ parse_assignment-IsEntry line (rw (parse_quoted, p, q) at h)
    | inr q ↦
        parse_assignment-IsEntry (continue_line quote line rest).0 (rw (parse_quoted, p, q) at h)
  ]
]

pub parse_multiline_assignment-IsEntry :
    (line : Text) (rest : List Text) {e : Entry}
    → (parse_multiline_assignment line rest).0 ≡ good e
    → IsEntry e
unfolding parse_multiline_assignment
parse_multiline_assignment-IsEntry line rest h =
    elim (Option-cases (split_once b'=' (strip_export (trim_start line)))) [
      | inl p ↦ cc (rw (parse_multiline_assignment, p) at h)
      | inr (parts, p) ↦ elim (Parsed-cases (validate_key_syntax (trim parts.0))) [
        | inl (u, q) ↦
            parse_quoted-IsEntry (trim_start line) (trim_start parts.1) rest
              (rw (parse_multiline_assignment, p, q) at h)
        | inr (m, q) ↦ cc (rw (parse_multiline_assignment, p, q) at h)
      ]
    ]

IsDistinct-append :
    (ks : List Text) (k : Text)
    → IsDistinct ks
    → any (eq_text k) ks ≡ false
    → IsDistinct (ks ++ (k ∷ []))
IsDistinct-append [] k d new = (tt, tt)
IsDistinct-append (j ∷ js) k d new = (
  All-append (λ i. i ≢ j) js (k ∷ []) d.0 (λ e. ground (arith, eq_text_iff k j), tt),
  IsDistinct-append js k d.1 (ground arith),
)

IsNumbered-append :
    (n : ℕ) (es : List Entry) (e : Entry)
    → IsNumbered n es
    → e.position ≡ n + length es
    → IsNumbered n (es ++ (e ∷ []))
IsNumbered-append n [] e p h = (omega (arith, h), tt)
IsNumbered-append n (f ∷ fs) e p h = (p.0, IsNumbered-append (n + 1) fs e p.1 (omega (arith, h)))

pub map-append_one :
    (es : List Entry) (e : Entry)
    → map (λ e. e.key) (es ++ (e ∷ [])) ≡ map (λ e. e.key) es ++ (e.key ∷ [])
map-append_one [] e = refl
map-append_one (f ∷ fs) e = ap (λ l. f.key ∷ l) (map-append_one fs e)

pub add_entry-IsReport :
    (es : List Entry) (e : Entry)
    → IsReport es
    → IsEntry e
    → any (eq_text e.key) (map (λ f. f.key) es) ≡ false
    → e.position ≡ length es
    → suc (length es) ≤ max_entries
    → IsReport (es ++ (e ∷ []))
add_entry-IsReport es e r s new placed room = record {
  sound = All-append IsEntry es (e ∷ []) r.sound (s, tt);
  distinct =
      rw (map-append_one es e) (IsDistinct-append (map (λ f. f.key) es) e.key r.distinct new);
  numbered = IsNumbered-append 0 es e r.numbered (omega (arith, placed));
  bounded = omega (arith, length-append es (e ∷ []), room);
}

pub empty_report : IsReport []
empty_report = record { sound = tt; distinct = tt; numbered = tt; bounded = omega arith }
