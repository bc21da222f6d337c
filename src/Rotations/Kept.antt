-- ===== src/Rotations/Kept.antt =====
-- A record that is sealed again and written reads as it did, and no other record changes.
use configdeck.Crypto.Manager.{EncryptedBlob}
use configdeck.Crypto.Outcome
use configdeck.Errors.{ok, >>=-eq-ok}
use configdeck.Prelude.{
  ℕ, ◌≡◌, ◌≢◌, refl, sym, ◌∙◌, true, List, [], ◌∷◌, Option, some, Text, eq_text_iff, arith, length,
  update_where, All, All-update, Bool-cases, inl, inr,
}
use configdeck.Rotations.Batch.{Operation, refers, prepare_row, is_source, or_crypto}
use configdeck.Rotations.Laws.{IsLawful}
use configdeck.Rotations.Secrets.{IsDistinct, reading, contents, reading-at}
use configdeck.Rotations.{CipherTable}

-- Every nonce that is drawn has 12 bytes.
abbrev pub AreNonces : (Text → Option Text) → Type 0
AreNonces random = (id nonce : Text) → random id ≡ some nonce → length nonce ≡ 12

pub or_crypto-eq-ok {ℓ} :
    {A : Type ℓ} (m : Outcome.Outcome A) {a : A} → or_crypto m ≡ ok a → m ≡ Outcome.ok a
or_crypto-eq-ok (Outcome.ok a) h = cc
or_crypto-eq-ok (Outcome.err e) h = cc
or_crypto-eq-ok Outcome.panic h = cc

module _ {Row : Type 0} (table : CipherTable Row) (law : IsLawful table) (keys : Text → ℕ → Text)
    (operation : Operation) (old_dek new_dek : Text)
    (old_key : keys operation.environment_id operation.source_dek_version ≡ old_dek)
    (new_key : keys operation.environment_id operation.target_dek_version ≡ new_dek)
    (apart : operation.target_dek_version ≢ operation.source_dek_version) where
  -- The sealed value reads as the row did.
  abbrev pub IsResealed : Row × EncryptedBlob → Type 0
  IsResealed p =
      reading table keys (table.stored operation.target_dek_version p.1 p.0)
      ≡ reading table keys p.0

  -- One statement reaches no other row than the one that it is about.
  abbrev pub Sources : List Row → Row → Type 0
  Sources rows r = All (λ x. is_source table operation old_dek new_dek r x ≡ true → x ≡ r) rows

  pub prepare_row-IsResealed :
      (random : Text → Option Text) (r : Row) (b : EncryptedBlob)
      → AreNonces random
      → refers table operation.environment_id operation.source_dek_version r ≡ true
      → prepare_row table operation old_dek new_dek random r ≡ ok b
      → IsResealed (r, b)
  unfolding prepare_row
  prepare_row-IsResealed random r b n f h =
      let (p, e, g) =
        >>=-eq-ok (or_crypto (table.open_row old_dek operation.source_dek_version r)) _ h in
      let opened = or_crypto-eq-ok (table.open_row old_dek operation.source_dek_version r) e in
      let sealed =
        or_crypto-eq-ok
          (table.seal_row (random (table.id r)) new_dek operation.target_dek_version r p) g in
      let (nonce, d) =
        law.drawn (random (table.id r)) new_dek operation.target_dek_version r p b sealed in
      let home : table.environment_id r ≡ operation.environment_id =
        ground (arith, eq_text_iff (table.environment_id r) operation.environment_id) in
      let version : table.dek_version r ≡ operation.source_dek_version = ground arith in
      let sealed_with : table.seal_row (some nonce) new_dek operation.target_dek_version r p
          ≡ Outcome.ok b =
        rw (← d) sealed in
      let again =
        law.open_stored nonce new_dek operation.target_dek_version r p b (n (table.id r) nonce d)
          sealed_with in
      reading-at table keys (table.stored operation.target_dek_version b r) operation.environment_id
        operation.target_dek_version
        (law.environment_stored operation.target_dek_version b r ∙ home)
        (law.version_stored operation.target_dek_version b r)
      ∙ rw new_key (
          again
          ∙ sym (
              reading-at table keys r operation.environment_id operation.source_dek_version home
                version
              ∙ rw old_key opened))

  pub Sources-update :
      (r s : Row) (b : EncryptedBlob) (rows : List Row)
      → Sources rows s
      → Sources
          (update_where
            (is_source table operation old_dek new_dek r)
            (table.stored operation.target_dek_version b)
            rows)
          s
  Sources-update r s b [] h = tt
  Sources-update r s b (x ∷ xs) h =
      elim (Bool-cases (is_source table operation old_dek new_dek r x)) [
        | inr e ↦ rw e (h.0, Sources-update r s b xs h.1)
        | inl e ↦ rw e (
          λ f. absurd (ground (arith, apart, law.version_stored operation.target_dek_version b x)),
          Sources-update r s b xs h.1,
        )
      ]

  pub contents-update :
      (r : Row) (b : EncryptedBlob) (rows : List Row)
      → Sources rows r
      → IsResealed (r, b)
      → contents table keys (
          update_where
            (is_source table operation old_dek new_dek r)
            (table.stored operation.target_dek_version b)
            rows)
        ≡ contents table keys rows
  contents-update r b [] h s = refl
  contents-update r b (x ∷ xs) h s =
      let rest = contents-update r b xs h.1 s in
      elim (Bool-cases (is_source table operation old_dek new_dek r x)) [
        | inr e ↦ rw (e, rest) refl
        | inl e ↦
            let same : x ≡ r = h.0 e in
            let read : reading table keys (table.stored operation.target_dek_version b x)
                ≡ reading table keys x =
              rw same s in
            rw (e, rest, law.id_stored operation.target_dek_version b x, read) refl
      ]

  pub IsDistinct-update :
      (r : Row) (b : EncryptedBlob) (rows : List Row)
      → IsDistinct table rows
      → IsDistinct table (
          update_where
            (is_source table operation old_dek new_dek r)
            (table.stored operation.target_dek_version b)
            rows)
  IsDistinct-update r b [] d = tt
  IsDistinct-update r b (x ∷ xs) d =
      let t = is_source table operation old_dek new_dek r in
      let f = table.stored operation.target_dek_version b in
      let others =
        All-update t f (λ y. table.id y ≢ table.id x)
          (λ y n. rw (law.id_stored operation.target_dek_version b y) n) xs d.0 in
      let rest = IsDistinct-update r b xs d.1 in
      elim (Bool-cases (t x)) [
        | inr e ↦ rw e (others, rest)
        | inl e ↦ rw (e, law.id_stored operation.target_dek_version b x) (others, rest)
      ]
