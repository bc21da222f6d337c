-- ===== src/Rotations/Written.antt =====
-- A batch leaves what its table holds as it was, and counts what it moves.
use configdeck.Crypto.Manager.{EncryptedBlob}
use configdeck.Errors.{ok, ◌>>=◌, >>=-eq-ok}
use configdeck.Prelude.{
  ℕ, ◌+◌, count_where, ◌≡◌, ◌≢◌, refl, sym, ◌∙◌, true, List, [], ◌∷◌, Option, Text, eq_text_iff,
  arith, length, update_where, All, All-map, inl, inr, List-cases,
}
use configdeck.Rotations.Batch.{
  Operation, checkpoint, refers, batch_rows, prepare_row, prepare_rows, is_source,
  update_cipher_row, update_cipher_rows, migrate_batch,
}
use configdeck.Rotations.Laws.{IsLawful}
use configdeck.Rotations.Balance.{processed, checkpoint-processed, count_where-leaving}
use configdeck.Rotations.Secrets.{IsDistinct, AreUnwritten, All-batch_rows, contents}
use configdeck.Rotations.{CipherTable}
use configdeck.Rotations.Kept.{
  AreNonces, IsResealed, Sources, prepare_row-IsResealed, Sources-update, contents-update,
  IsDistinct-update,
}

module _ {Row : Type 0} (table : CipherTable Row) (law : IsLawful table) (keys : Text → ℕ → Text)
    (operation : Operation) (old_dek new_dek : Text)
    (old_key : keys operation.environment_id operation.source_dek_version ≡ old_dek)
    (new_key : keys operation.environment_id operation.target_dek_version ≡ new_dek)
    (apart : operation.target_dek_version ≢ operation.source_dek_version) where
  -- What is known of the prepared rows before they are written.
  abbrev IsPrepared : List Row → Row × EncryptedBlob → Type 0
  IsPrepared rows p =
      Sources table law keys operation old_dek new_dek old_key new_key apart rows p.0
      × (IsResealed table law keys operation old_dek new_dek old_key new_key apart p
          × (refers table operation.environment_id operation.source_dek_version p.0 ≡ true))

  -- A row that is written leaves the old key.
  moved-counts :
      (r : Row) (b : EncryptedBlob) (rows : List Row)
      → Sources table law keys operation old_dek new_dek old_key new_key apart rows r
      → refers table operation.environment_id operation.source_dek_version r ≡ true
      → count_where (refers table operation.environment_id operation.source_dek_version) (
            update_where
              (is_source table operation old_dek new_dek r)
              (table.stored operation.target_dek_version b)
              rows)
          + count_where (is_source table operation old_dek new_dek r) rows
        ≡ count_where (refers table operation.environment_id operation.source_dek_version) rows
  moved-counts r b rows s f =
      count_where-leaving (refers table operation.environment_id operation.source_dek_version)
        (is_source table operation old_dek new_dek r) (table.stored operation.target_dek_version b)
        rows
        (All-map (λ x. is_source table operation old_dek new_dek r x ≡ true → x ≡ r) _
          (λ x k e.
            let same : x ≡ r = k e in
            (rw same f, ground (arith, apart, law.version_stored operation.target_dek_version b x)))
          rows s)

  -- What writing the prepared rows does: no secret changes, and each of them leaves the old key.
  record IsMoved (n : ℕ) (rows rows' : List Row) : Type 0 where
    pub same : contents table keys rows' ≡ contents table keys rows
    pub distinct : IsDistinct table rows'
    pub counted :
        count_where (refers table operation.environment_id operation.source_dek_version) rows' + n
        ≡ count_where (refers table operation.environment_id operation.source_dek_version) rows

  update_cipher_rows-IsMoved :
      (prepared : List (Row × EncryptedBlob)) (rows : List Row) {rows' : List Row}
      → update_cipher_rows table operation old_dek new_dek prepared rows ≡ ok rows'
      → IsDistinct table rows
      → All (IsPrepared rows) prepared
      → IsMoved (length prepared) rows rows'
  unfolding update_cipher_rows update_cipher_row
  update_cipher_rows-IsMoved [] rows {rows'} h d p =
      let same : rows ≡ rows' = cc in
      rw (← same) (record { same = refl; distinct = d; counted = omega arith })
  update_cipher_rows-IsMoved ((r, b) ∷ prepared) rows {rows'} h d p =
      let (mid, e, g) =
        >>=-eq-ok (update_cipher_row table operation old_dek new_dek r b rows) _ h in
      let after =
        update_where (is_source table operation old_dek new_dek r)
          (table.stored operation.target_dek_version b) rows in
      let single : count_where (is_source table operation old_dek new_dek r) rows ≡ 1 =
        ground arith in
      let written : mid ≡ after = ground arith in
      let next : update_cipher_rows table operation old_dek new_dek prepared after ≡ ok rows' =
        rw (← written) g in
      let rest =
        update_cipher_rows-IsMoved prepared after next
          (IsDistinct-update table law keys operation old_dek new_dek old_key new_key apart r b rows
            d)
          (All-map (IsPrepared rows) (IsPrepared after)
            (λ q f. (
              Sources-update table law keys operation old_dek new_dek old_key new_key apart r q.0 b
                  rows f.0,
              f.1,
            ))
            prepared p.1) in
      record {
        same =
            rest.same
            ∙ contents-update table law keys operation old_dek new_dek old_key new_key apart r b
                rows p.0.0 p.0.1.0;
        distinct = rest.distinct;
        counted = omega (arith, rest.counted, moved-counts r b rows p.0.0 p.0.1.1, single);
      }

  prepare_rows-IsPrepared :
      (random : Text → Option Text) (rows rs : List Row) {prepared : List (Row × EncryptedBlob)}
      → AreNonces random
      → AreUnwritten table operation rs rows
      → All (λ r. refers table operation.environment_id operation.source_dek_version r ≡ true) rs
      → prepare_rows table operation old_dek new_dek random rs ≡ ok prepared
      → All (IsPrepared rows) prepared × (length prepared ≡ length rs)
  unfolding prepare_rows
  prepare_rows-IsPrepared random rows [] {prepared} n u f h =
      let same : [] ≡ prepared = cc in rw (← same) (tt, refl)
  prepare_rows-IsPrepared random rows (r ∷ rs) {prepared} n u f h =
      let (b, e, g) = >>=-eq-ok (prepare_row table operation old_dek new_dek random r) _ h in
      let (rest, e', g') = >>=-eq-ok (prepare_rows table operation old_dek new_dek random rs) _ g in
      let same : (r, b) ∷ rest ≡ prepared = cc in
      let own =
        All-map _ (λ x. is_source table operation old_dek new_dek r x ≡ true → x ≡ r)
          (λ x o s. o (ground (arith, eq_text_iff (table.id x) (table.id r))) (ground arith)) rows
          (u.0 f.0) in
      let (others, as_many) = prepare_rows-IsPrepared random rows rs n u.1 f.1 e' in
      rw (← same) (
        (
          (
            own,
            (
              prepare_row-IsResealed table law keys operation old_dek new_dek old_key new_key apart
                  random r b n f.0 e,
              f.0,
            ),
          ),
          others,
        ),
        omega (arith, as_many),
      )

  -- What a batch does, to the table and to the operation.
  pub record IsKeeping (rows : List Row) (os : List Operation) (r : ℕ × List Row × List Operation)
      : Type 0 where
    pub same : contents table keys r.1 ≡ contents table keys rows
    pub distinct : IsDistinct table r.1
    pub balanced :
        processed operation.id r.2
          + count_where (refers table operation.environment_id operation.source_dek_version) r.1
        ≡ processed operation.id os
          + count_where (refers table operation.environment_id operation.source_dek_version) rows

  written :
      (random : Text → Option Text) (batch rows : List Row) (os : List Operation)
      {r : ℕ × List Row × List Operation}
      → AreNonces random
      → IsDistinct table rows
      → AreUnwritten table operation batch rows
      → All (λ x. refers table operation.environment_id operation.source_dek_version x ≡ true) batch
      → (prepare_rows table operation old_dek new_dek random batch >>= λ prepared.
          update_cipher_rows table operation old_dek new_dek prepared rows >>= λ rows'.
          checkpoint operation (length batch) os >>= λ os'. ok (length batch, rows', os'))
        ≡ ok r
      → IsKeeping rows os r
  written random batch rows os {r} n d u f h =
      let (prepared, p, h1) =
        >>=-eq-ok (prepare_rows table operation old_dek new_dek random batch) _ h in
      let (rows', q, h2) =
        >>=-eq-ok (update_cipher_rows table operation old_dek new_dek prepared rows) _ h1 in
      let (os', c, h3) = >>=-eq-ok (checkpoint operation (length batch) os) _ h2 in
      let (ready, as_many) = prepare_rows-IsPrepared random rows batch n u f p in
      let moved = update_cipher_rows-IsMoved prepared rows q d ready in
      let made : (length batch, rows', os') ≡ r = cc in
      rw (← made) (record {
        same = moved.same;
        distinct = moved.distinct;
        balanced =
            omega
              (arith, moved.counted, as_many, checkpoint-processed operation (length batch) os c);
      })

  pub migrate_batch-IsKeeping :
      (random : Text → Option Text) (read rows : List Row) (os : List Operation)
      {r : ℕ × List Row × List Operation}
      → migrate_batch table operation old_dek new_dek random read rows os ≡ ok r
      → AreNonces random
      → IsDistinct table rows
      → AreUnwritten table operation read rows
      → IsKeeping rows os r
  unfolding migrate_batch
  migrate_batch-IsKeeping random read rows os {r} h n d u =
      elim (List-cases (batch_rows table operation read)) [
        | inl e ↦
            let made : (0, rows, os) ≡ r = ground arith in
            rw (← made) (record { same = refl; distinct = d; balanced = refl })
        | inr (first, others, e) ↦
            let batch = All-batch_rows table _ operation read u e in
            written random (first ∷ others) rows os n d
              (All-map _ _ (λ x k. k.0) (first ∷ others) batch)
              (All-map _ _ (λ x k. k.1) (first ∷ others) batch)
              (sym (rw (migrate_batch, e) refl) ∙ h)
      ]
