-- ===== src/Catalog/Stays.antt =====
-- A service with an active environment keeps one, whatever is done to the catalog.

use configdeck.Catalog.Environments.{is_active_in, has_id}
use configdeck.Catalog.{EnvironmentRow, Db, environment_taken}
use configdeck.Prelude.{
  ◌+◌, ◌≤◌, ◌≡◌, ◌≢◌, refl, sym, ◌∙◌, Bool, true, false, not, ◌&&◌, List, [], ◌∷◌, ◌++◌, some, Text,
  eq_text_iff, arith, any, find, update_where, All, All-map, All-append, All-update, find-All,
  Bool-cases, inl, inr, count_where,
}

abbrev pub HasActive : Text → Db → Type 0
HasActive service_id db = any (is_active_in service_id) db.environments ≡ true

-- Identifiers are primary keys.
abbrev pub IsDistinct : List EnvironmentRow → Type 0
IsDistinct [] = Unit
IsDistinct (e ∷ es) = All (λ x. x.id ≢ e.id) es × IsDistinct es

pub IsDistinct-append :
    (es : List EnvironmentRow) (new : EnvironmentRow)
    → IsDistinct es
    → All (λ x. x.id ≢ new.id) es
    → IsDistinct (es ++ (new ∷ []))
IsDistinct-append [] new d f = (tt, tt)
IsDistinct-append (e ∷ es) new d f = (
  All-append (λ x. x.id ≢ e.id) es (new ∷ []) d.0 ((λ h. f.0 (sym h)), tt),
  IsDistinct-append es new d.1 f.1,
)

pub IsDistinct-update :
    (t : EnvironmentRow → Bool) (f : EnvironmentRow → EnvironmentRow)
    → ((e : EnvironmentRow) → (f e).id ≡ e.id)
    → (es : List EnvironmentRow) → IsDistinct es
    → IsDistinct (update_where t f es)
IsDistinct-update t f same [] d = tt
IsDistinct-update t f same (e ∷ es) d =
    let others = All-update t f (λ x. x.id ≢ e.id) (λ x n. rw (same x) n) es d.0 in
    let rest = IsDistinct-update t f same es d.1 in
    elim (Bool-cases (t e)) [ inl h ↦ rw (h, same e) (others, rest) | inr h ↦ rw h (others, rest) ]

pub fresh :
    (new : EnvironmentRow) (es : List EnvironmentRow)
    → environment_taken new es ≡ false
    → All (λ x. x.id ≢ new.id) es
fresh new [] h = tt
fresh new (e ∷ es) h =
    ((λ same. ground (arith, eq_text_iff e.id new.id)), fresh new es (ground arith))

-- What is found under an identifier is the only row that has it.
pub found-IsOnly :
    (p : EnvironmentRow → Bool) (id : Text) (es : List EnvironmentRow) {e : EnvironmentRow}
    → ((x : EnvironmentRow) → p x ≡ true → x.id ≡ id)
    → IsDistinct es
    → find p es ≡ some e
    → All (λ y. y.id ≡ id → y ≡ e) es
found-IsOnly p id [] k d h = tt
found-IsOnly p id (x ∷ xs) {e} k d h = elim (Bool-cases (p x)) [
  | inl u ↦
      let same : x ≡ e = ground arith in
      (
        (λ i. same),
        All-map (λ y. y.id ≢ x.id) (λ y. y.id ≡ id → y ≡ e) (λ y n i. absurd (n (i ∙ sym (k x u))))
            xs d.0,
      )
  | inr u ↦
      let later : find p xs ≡ some e = ground arith in
      let (n, v) = find-All (λ y. y.id ≢ x.id) p xs d.0 later in
      ((λ i. absurd (n (k e v ∙ sym i))), found-IsOnly p id xs k d.1 later)
]

pub count-split :
    (p t : EnvironmentRow → Bool) (es : List EnvironmentRow)
    → count_where p es ≤ count_where t es + count_where (λ x. p x && not (t x)) es
count-split p t [] = omega arith
count-split p t (e ∷ es) = ground (arith, count-split p t es)

count-id-none :
    (id : Text) (es : List EnvironmentRow)
    → All (λ x. x.id ≢ id) es
    → count_where (has_id id) es ≡ 0
count-id-none id [] h = refl
count-id-none id (e ∷ es) h = ground (arith, h.0, eq_text_iff e.id id, count-id-none id es h.1)

pub count-id :
    (id : Text) (es : List EnvironmentRow) → IsDistinct es → count_where (has_id id) es ≤ 1
count-id id [] d = omega arith
count-id id (e ∷ es) d = elim (Bool-cases (has_id id e)) [
  | inl h ↦
      let same : e.id ≡ id = ground (arith, eq_text_iff e.id id) in
      let none_left : count_where (has_id id) es ≡ 0 = rw (← same) (count-id-none e.id es d.0) in
      ground (arith, none_left)
  | inr h ↦ ground (arith, count-id id es d.1)
]

pub count-any :
    (p : EnvironmentRow → Bool) (es : List EnvironmentRow) → 1 ≤ count_where p es → any p es ≡ true
count-any p [] h = absurd (omega (arith, h))
count-any p (e ∷ es) h = elim (Bool-cases (p e)) [
  | inl u ↦ ground arith
  | inr u ↦ ground (arith, count-any p es (ground arith))
]
