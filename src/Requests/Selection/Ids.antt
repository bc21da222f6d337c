-- ===== src/Requests/Selection/Ids.antt =====
-- The list of identifiers that `normalize_request_ids` makes.
use configdeck.Errors.{ok}
use configdeck.Prelude.Space.{trim}
use configdeck.Prelude.{
  ◌≤◌, ◌≡◌, true, false, not, Bool, List, [], ◌∷◌, Text, arith, eq_text, lt_text, map, filter,
  is_empty, length, any, All, All-map, Any, Bool-cases, inl, inr, refl,
}
use configdeck.Requests.Selection.{insert_unique, sort_unique, normalize_request_ids, max_items}

lt_text_trans : (a b c : Text) → lt_text a b ≡ true → lt_text b c ≡ true → lt_text a c ≡ true
unfolding lt_text
lt_text_trans a b [] h k = ground arith
lt_text_trans a [] (z ∷ c) h k = ground arith
lt_text_trans [] (y ∷ b) (z ∷ c) h k = refl
lt_text_trans (x ∷ a) (y ∷ b) (z ∷ c) h k = ground (arith, lt_text_trans a b c)

lt_text_total : (a b : Text) → eq_text a b ≡ false → lt_text a b ≡ false → lt_text b a ≡ true
unfolding lt_text eq_text
lt_text_total [] [] e h = ground arith
lt_text_total [] (y ∷ b) e h = ground arith
lt_text_total (x ∷ a) [] e h = refl
lt_text_total (x ∷ a) (y ∷ b) e h = ground (arith, lt_text_total a b)

-- Each text is below all that follow, in the order of strings; so none stands there twice.
abbrev pub IsAscending : List Text → Type 0
IsAscending [] = Unit
IsAscending (x ∷ xs) = All (λ y. lt_text x y ≡ true) xs × IsAscending xs

All-insert_unique :
    (P : Text → Type 0) (x : Text) (ys : List Text) → P x → All P ys → All P (insert_unique x ys)
unfolding insert_unique
All-insert_unique P x [] p q = (p, tt)
All-insert_unique P x (y ∷ ys) p q = elim (Bool-cases (eq_text x y)) [
  | inl e ↦ rw e q
  | inr e ↦ elim (Bool-cases (lt_text x y)) [
    | inl l ↦ rw (e, l) (p, q)
    | inr l ↦ rw (e, l) (q.0, All-insert_unique P x ys p q.1)
  ]
]

IsAscending-insert_unique :
    (x : Text) (ys : List Text) → IsAscending ys → IsAscending (insert_unique x ys)
unfolding insert_unique
IsAscending-insert_unique x [] a = (tt, tt)
IsAscending-insert_unique x (y ∷ ys) a = elim (Bool-cases (eq_text x y)) [
  | inl e ↦ rw e a
  | inr e ↦ elim (Bool-cases (lt_text x y)) [
    | inl l ↦ rw (e, l) ((l, All-map _ _ (λ z h. lt_text_trans x y z l h) ys a.0), a)
    | inr l ↦
        rw (e, l)
          (
            All-insert_unique (λ z. lt_text y z ≡ true) x ys (lt_text_total x y e l) a.0,
            IsAscending-insert_unique x ys a.1,
          )
  ]
]

All-sort_unique : (P : Text → Type 0) (xs : List Text) → All P xs → All P (sort_unique xs)
unfolding sort_unique
All-sort_unique P [] h = tt
All-sort_unique P (x ∷ xs) h = All-insert_unique P x (sort_unique xs) h.0 (All-sort_unique P xs h.1)

IsAscending-sort_unique : (xs : List Text) → IsAscending (sort_unique xs)
unfolding sort_unique
IsAscending-sort_unique [] = tt
IsAscending-sort_unique (x ∷ xs) =
    IsAscending-insert_unique x (sort_unique xs) (IsAscending-sort_unique xs)

-- What the trimmed identifier `id` is among `given`.
abbrev IsGiven : List Text → Text → Type 0
IsGiven given id = Any (λ g. trim g ≡ id) given

weaken :
    (given : List Text) (g : Text) (xs : List Text)
    → All (IsGiven given) xs
    → All (IsGiven (g ∷ given)) xs
weaken given g xs h = All-map (IsGiven given) (IsGiven (g ∷ given)) (λ x i. inr i) xs h

All-filter-IsGiven :
    (given : List Text) → All (IsGiven given) (filter (λ id. not (is_empty id)) (map trim given))
All-filter-IsGiven [] = tt
All-filter-IsGiven (g ∷ gs) = elim (Bool-cases (is_empty (trim g))) [
  | inl e ↦ rw e (weaken gs g _ (All-filter-IsGiven gs))
  | inr e ↦ rw e (inl refl, weaken gs g _ (All-filter-IsGiven gs))
]

none_fails :
    (is_uuid : Text → Bool) (xs : List Text)
    → any (λ id. not (is_uuid id)) xs ≡ false
    → All (λ id. is_uuid id ≡ true) xs
none_fails is_uuid [] h = tt
none_fails is_uuid (x ∷ xs) h = (ground arith, none_fails is_uuid xs (ground arith))

-- Between 1 and 50 identifiers, each one of the given ones without the white space around it and
-- a UUID, in strictly ascending order.
pub record IsIds (is_uuid : Text → Bool) (given ids : List Text) : Type 0 where
  pub ascending : IsAscending ids
  pub own : All (IsGiven given) ids
  pub uuids : All (λ id. is_uuid id ≡ true) ids
  pub some_id : is_empty ids ≡ false
  pub bounded : length ids ≤ max_items

-- A list of identifiers that passes is between 1 and 50 of the given ones, trimmed, each a UUID,
-- in strictly ascending order, so that none is there twice.
pub normalize_request_ids-IsIds :
    (is_uuid : Text → Bool) (given ids : List Text)
    → normalize_request_ids is_uuid given ≡ ok ids
    → IsIds is_uuid given ids
unfolding normalize_request_ids
normalize_request_ids-IsIds is_uuid given ids h =
    let trimmed = filter (λ id. not (is_empty id)) (map trim given) in
    let same : sort_unique trimmed ≡ ids = ground arith in
    record {
      ascending = rw (← same) (IsAscending-sort_unique trimmed);
      own = rw (← same) (All-sort_unique (IsGiven given) trimmed (All-filter-IsGiven given));
      uuids = none_fails is_uuid ids (ground arith);
      some_id = ground arith;
      bounded = ground arith;
    }
