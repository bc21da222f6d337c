-- ===== src/Rotations/Balance.antt =====
-- What a batch counts: the records that it moves to the new key, and those that the operation has
-- processed.
use configdeck.Errors.{ok}
use configdeck.Prelude.{
  ℕ, ◌+◌, ◌*◌, ◌≡◌, refl, Bool, true, false, List, [], ◌∷◌, Text, eq_text, arith, update_where,
  count_where, All, Bool-cases, inl, inr, if◌then◌else◌,
}
use configdeck.Rotations.Batch.{Operation, has_room, checkpoint}

-- The records that the rows of an operation count as processed.
abbrev pub processed : Text → List Operation → ℕ
processed id [] = 0
processed id (o ∷ os) =
    let rest = processed id os in if eq_text o.id id then o.processed_records + rest else rest

-- What changes neither the identifier nor the count of a row changes nothing in it.
pub processed-update :
    (id : Text) (t : Operation → Bool) (f : Operation → Operation)
    → ((o : Operation) → ((f o).id ≡ o.id) × ((f o).processed_records ≡ o.processed_records))
    → (os : List Operation) → processed id (update_where t f os) ≡ processed id os
processed-update id t f k [] = refl
processed-update id t f k (o ∷ os) = elim (Bool-cases (t o)) [
  | inl e ↦ rw (e, (k o).0, (k o).1, processed-update id t f k os) refl
  | inr e ↦ rw (e, processed-update id t f k os) refl
]

processed-room :
    (operation : Operation) (n : ℕ) (os : List Operation)
    → processed operation.id (
        update_where
          (has_room operation n)
          (λ o. record o { processed_records = o.processed_records + n })
          os)
      ≡ processed operation.id os + n * count_where (has_room operation n) os
processed-room operation n [] = omega arith
processed-room operation n (o ∷ os) = elim (Bool-cases (has_room operation n o)) [
  | inl e ↦
      let own : eq_text o.id operation.id ≡ true = ground arith in
      rw (e, own) (omega (arith, processed-room operation n os))
  | inr e ↦ elim (Bool-cases (eq_text o.id operation.id)) [
    | inl own ↦ rw (e, own) (omega (arith, processed-room operation n os))
    | inr own ↦ rw (e, own) (omega (arith, processed-room operation n os))
  ]
]

pub checkpoint-processed :
    (operation : Operation) (n : ℕ) (os : List Operation) {os' : List Operation}
    → checkpoint operation n os ≡ ok os'
    → processed operation.id os' ≡ processed operation.id os + n
unfolding checkpoint
checkpoint-processed operation n os {os'} h =
    let single : count_where (has_room operation n) os ≡ 1 = ground arith in
    let made : update_where (has_room operation n)
          (λ o. record o { processed_records = o.processed_records + n }) os
        ≡ os' =
      ground arith in
    rw (← made, processed-room operation n os, single) (omega arith)

-- Rows of a kind that all leave it are as many fewer as there are of them.
pub count_where-leaving {ℓ} :
    {A : Type ℓ} (p t : A → Bool) (f : A → A) (xs : List A)
    → All (λ x. t x ≡ true → (p x ≡ true) × (p (f x) ≡ false)) xs
    → count_where p (update_where t f xs) + count_where t xs ≡ count_where p xs
count_where-leaving p t f [] h = refl
count_where-leaving p t f (x ∷ xs) h = elim (Bool-cases (t x)) [
  | inl e ↦
      let own : p x ≡ true = (h.0 e).0 in
      let gone : p (f x) ≡ false = (h.0 e).1 in
      rw (e, own, gone) (omega (arith, count_where-leaving p t f xs h.1))
  | inr e ↦ elim (Bool-cases (p x)) [
    | inl q ↦ rw (e, q) (omega (arith, count_where-leaving p t f xs h.1))
    | inr q ↦ rw (e, q) (omega (arith, count_where-leaving p t f xs h.1))
  ]
]
