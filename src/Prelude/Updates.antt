-- ===== src/Prelude/Updates.antt =====
-- What an `UPDATE … WHERE` over the rows of a table keeps, and what is found in the table.
use configdeck.Prelude.Lists.{any, All, find, update_where}
use configdeck.Prelude.Tests.{Bool-cases}
use mathlib.Core.Bool.{Bool, true, false, not, ◌&&◌, ◌||◌}
use mathlib.Core.List.{List, [], ◌∷◌, ◌++◌}
use mathlib.Core.Logic.{◌⊎◌, inl, inr}
use mathlib.Core.Option.{some}
use mathlib.Core.Path.{◌≡◌, refl}
use native.Mathlib.Omega.{arith}

module _ {ℓ} {A : Type ℓ} where
  pub any-witness : (p : A → Bool) (xs : List A) → any p xs ≡ true → (x : A) × (p x ≡ true)
  any-witness p [] h = cc
  any-witness p (x ∷ xs) h = elim (Bool-cases (p x)) [
    | inl e ↦ (x, e)
    | inr e ↦ any-witness p xs (ground arith)
  ]

  pub any_mono :
      (p q : A → Bool)
      → ((x : A) → p x ≡ true → q x ≡ true)
      → (xs : List A) → any p xs ≡ true
      → any q xs ≡ true
  any_mono p q f [] h = cc
  any_mono p q f (x ∷ xs) h = elim (Bool-cases (p x)) [
    | inl e ↦ ground (arith, f x e)
    | inr e ↦ ground (arith, any_mono p q f xs (ground arith))
  ]

  pub any-append : (p : A → Bool) (xs ys : List A) → any p (xs ++ ys) ≡ any p xs || any p ys
  any-append p [] ys = refl
  any-append p (x ∷ xs) ys = ground (arith, any-append p xs ys)

  -- An update keeps a row of a kind if it turns each such row into one, …
  pub any-update_where :
      (p t : A → Bool) (f : A → A)
      → ((x : A) → p x ≡ true → t x ≡ true → p (f x) ≡ true)
      → (xs : List A) → any p xs ≡ true
      → any p (update_where t f xs) ≡ true
  any-update_where p t f k [] h = cc
  any-update_where p t f k (x ∷ xs) h = elim (Bool-cases (p x)) [
    | inr e ↦ ground (arith, any-update_where p t f k xs (ground arith))
    | inl e ↦ elim (Bool-cases (t x)) [ inl u ↦ ground (arith, k x e u) | inr u ↦ ground arith ]
  ]

  -- … or if it passes one by.
  any-update_where_passed :
      (p t : A → Bool) (f : A → A) (xs : List A)
      → any (λ x. p x && not (t x)) xs ≡ true
      → any p (update_where t f xs) ≡ true
  any-update_where_passed p t f [] h = cc
  any-update_where_passed p t f (x ∷ xs) h = elim (Bool-cases (p x && not (t x))) [
    | inl e ↦ ground arith
    | inr e ↦ ground (arith, any-update_where_passed p t f xs (ground arith))
  ]

  any_split :
      (p t : A → Bool) (xs : List A)
      → any p xs ≡ true
      → (any (λ x. p x && not (t x)) xs ≡ true) ⊎ ((x : A) × (p x ≡ true) × (t x ≡ true))
  any_split p t [] h = cc
  any_split p t (x ∷ xs) h = elim (Bool-cases (p x)) [
    | inl e ↦ elim (Bool-cases (t x)) [ inl u ↦ inr (x, e, u) | inr u ↦ inl (ground arith) ]
    | inr e ↦ elim (any_split p t xs (ground arith)) [ inl u ↦ inl (ground arith) | inr u ↦ inr u ]
  ]

  -- An update keeps a row of a kind if, whenever it changes one, it passes another by.
  pub any-update_where_other :
      (p t : A → Bool) (f : A → A) (xs : List A)
      → ((x : A) → p x ≡ true → t x ≡ true → any (λ y. p y && not (t y)) xs ≡ true)
      → any p xs ≡ true
      → any p (update_where t f xs) ≡ true
  any-update_where_other p t f xs k h = elim (any_split p t xs h) [
    | inl u ↦ any-update_where_passed p t f xs u
    | inr (x, e, u) ↦ any-update_where_passed p t f xs (k x e u)
  ]

  -- An update of other rows changes nothing in what is found.
  pub find-update_where :
      (p t : A → Bool) (f : A → A)
      → ((x : A) → t x ≡ true → (p x ≡ false) × (p (f x) ≡ false))
      → (xs : List A) → find p (update_where t f xs) ≡ find p xs
  find-update_where p t f k [] = refl
  find-update_where p t f k (x ∷ xs) = elim (Bool-cases (t x)) [
    | inl e ↦ ground (arith, k x e, find-update_where p t f k xs)
    | inr e ↦ ground (arith, find-update_where p t f k xs)
  ]

  pub find-append :
      (p : A → Bool) (xs ys : List A) {y : A} → find p xs ≡ some y → find p (xs ++ ys) ≡ some y
  find-append p [] ys h = cc
  find-append p (x ∷ xs) ys {y} h = elim (Bool-cases (p x)) [
    | inl e ↦ ground arith
    | inr e ↦
        let later : find p xs ≡ some y = ground arith in ground (arith, find-append p xs ys later)
  ]

pub All-update {ℓ κ} :
    {A : Type ℓ} (t : A → Bool) (f : A → A) (P : A → Type κ)
    → ((x : A) → P x → P (f x))
    → (xs : List A) → All P xs
    → All P (update_where t f xs)
All-update t f P k [] h = tt
All-update t f P k (x ∷ xs) h = elim (Bool-cases (t x)) [
  | inl e ↦ rw e (k x h.0, All-update t f P k xs h.1)
  | inr e ↦ rw e (h.0, All-update t f P k xs h.1)
]

module _ {ℓ κ} {A : Type ℓ} where
  pub find-All :
      (P : A → Type κ) (p : A → Bool) (xs : List A) {x : A}
      → All P xs
      → find p xs ≡ some x
      → P x × (p x ≡ true)
  find-All P p [] h f = cc
  find-All P p (y ∷ ys) {x} h f = elim (Bool-cases (p y)) [
    | inl e ↦ let same : y ≡ x = ground arith in rw (← same) (h.0, e)
    | inr e ↦ let later : find p ys ≡ some x = ground arith in find-All P p ys h.1 later
  ]

  any_split_within :
      (P : A → Type κ) (p t : A → Bool) (xs : List A)
      → All P xs
      → any p xs ≡ true
      → (any (λ x. p x && not (t x)) xs ≡ true) ⊎ ((x : A) × P x × (p x ≡ true) × (t x ≡ true))
  any_split_within P p t [] q h = cc
  any_split_within P p t (x ∷ xs) q h = elim (Bool-cases (p x)) [
    | inl e ↦ elim (Bool-cases (t x)) [ inl u ↦ inr (x, q.0, e, u) | inr u ↦ inl (ground arith) ]
    | inr e ↦ elim (any_split_within P p t xs q.1 (ground arith)) [
      | inl u ↦ inl (ground arith)
      | inr u ↦ inr u
    ]
  ]

  -- The same, of rows of which more is known.
  pub any-update_where_within :
      (P : A → Type κ) (p t : A → Bool) (f : A → A) (xs : List A)
      → All P xs
      → ((x : A) → P x → p x ≡ true → t x ≡ true → any (λ y. p y && not (t y)) xs ≡ true)
      → any p xs ≡ true
      → any p (update_where t f xs) ≡ true
  any-update_where_within P p t f xs q k h = elim (any_split_within P p t xs q h) [
    | inl u ↦ any-update_where_passed p t f xs u
    | inr (x, r, e, u) ↦ any-update_where_passed p t f xs (k x r e u)
  ]

  pub All-zip : (P Q : A → Type κ) (xs : List A) → All P xs → All Q xs → All (λ x. P x × Q x) xs
  All-zip P Q [] p q = tt
  All-zip P Q (x ∷ xs) p q = ((p.0, q.0), All-zip P Q xs p.1 q.1)
