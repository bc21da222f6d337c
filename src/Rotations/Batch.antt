-- ===== src/Rotations/Batch.antt =====
-- The operations of a rotation in the database, and one batch of a table: the common course of
-- `migrate_current_batch`, `migrate_history_batch` and `migrate_proposal_batch` of
-- src/rotations/mod.rs, which differ in the table and in how a row is opened and sealed. The panic
-- of a field of 2^32 bytes, which ends the task before anything is written, stands here as the
-- error of the cipher.
use configdeck.Crypto.Manager.{EncryptedBlob}
use configdeck.Crypto.Outcome.{Outcome, ok, err, panic}
use configdeck.Errors.{Result, crypto, conflict, ◌>>=◌, ◌>>◌, require}
use configdeck.Errors
use configdeck.Prelude.{
  ℕ, ◌+◌, Bool, true, false, ◌&&◌, List, [], ◌∷◌, Option, Text, eq_text, lt_text, ◌==◌, leb,
  if◌then◌else◌, length, filter, update_where, count_where, take,
}
use configdeck.Rotations.{CipherTable}

abbrev pub batch_size : ℕ
batch_size = 64

pub data RotationStatus : Type 0 where
  validating preparing migrating verifying committing completed failed : RotationStatus

-- A row of key_rotation_operations with the rotation type DEK.
pub record Operation : Type 0 where
  pub id : Text
  pub environment_id : Text
  pub source_dek_version : ℕ
  pub target_dek_version : ℕ
  pub status : RotationStatus
  pub total_records : ℕ
  pub processed_records : ℕ
  pub failure_code : Option Text

abbrev pub is_migrating : RotationStatus → Bool
is_migrating migrating = true
is_migrating _ = false

-- the condition of the `UPDATE` of `checkpoint`
abbrev pub has_room : Operation → ℕ → Operation → Bool
has_room operation n o =
    eq_text o.id operation.id
    && is_migrating o.status
    && leb (o.processed_records + n) o.total_records

unfoldable pub checkpoint : Operation → ℕ → List Operation → Result (List Operation)
checkpoint operation n operations =
    if count_where (has_room operation n) operations == 1
    then Errors.ok (
        update_where (has_room operation n)
          (λ o. record o { processed_records = o.processed_records + n }) operations)
    else Errors.err conflict

-- `map_err(|_| AppError::Crypto)`
abbrev pub or_crypto {ℓ} : {A : Type ℓ} → Outcome A → Result A
or_crypto (ok a) = Errors.ok a
or_crypto (err e) = Errors.err crypto
or_crypto panic = Errors.err crypto

module _ {Row : Type 0} (table : CipherTable Row) where
  -- `ORDER BY id`
  unfoldable pub insert_by_id : Row → List Row → List Row
  insert_by_id x [] = x ∷ []
  insert_by_id x (y ∷ ys) =
      let rest = insert_by_id x ys in
      if lt_text (table.id y) (table.id x) then y ∷ rest else x ∷ y ∷ ys

  unfoldable pub sort_by_id : List Row → List Row
  unfolding insert_by_id
  sort_by_id [] = []
  sort_by_id (x ∷ xs) = insert_by_id x (sort_by_id xs)

  -- `WHERE environment_id = ? AND dek_version = ?`
  abbrev pub refers : Text → ℕ → Row → Bool
  refers environment_id v row =
      eq_text (table.environment_id row) environment_id && table.dek_version row == v

  unfoldable pub batch_rows : Operation → List Row → List Row
  unfolding sort_by_id
  batch_rows operation rows =
      take batch_size
        (sort_by_id (filter (refers operation.environment_id operation.source_dek_version) rows))

  module _ (operation : Operation) (old_dek new_dek : Text) where
    unfoldable pub prepare_row : (Text → Option Text) → Row → Result EncryptedBlob
    prepare_row random row = do
      plaintext ← or_crypto (table.open_row old_dek operation.source_dek_version row)
      or_crypto (
          table.seal_row (random (table.id row)) new_dek operation.target_dek_version row plaintext)

    -- `random` gives the nonce that is drawn for the record of an identifier.
    unfoldable pub prepare_rows :
        (Text → Option Text) → List Row → Result (List (Row × EncryptedBlob))
    unfolding prepare_row
    prepare_rows random [] = Errors.ok []
    prepare_rows random (row ∷ rows) = do
      encrypted ← prepare_row random row
      rest ← prepare_rows random rows
      Errors.ok ((row, encrypted) ∷ rest)

    -- `WHERE id = ? AND dek_version = ?`
    abbrev pub is_source : Row → Row → Bool
    is_source row r =
        eq_text (table.id r) (table.id row) && table.dek_version r == operation.source_dek_version

    -- `update_cipher_row`
    unfoldable pub update_cipher_row : Row → EncryptedBlob → List Row → Result (List Row)
    update_cipher_row row encrypted rows =
        if count_where (is_source row) rows == 1
        then Errors.ok (
            update_where (is_source row) (table.stored operation.target_dek_version encrypted) rows)
        else Errors.err conflict

    unfoldable pub update_cipher_rows : List (Row × EncryptedBlob) → List Row → Result (List Row)
    unfolding update_cipher_row
    update_cipher_rows [] rows = Errors.ok rows
    update_cipher_rows ((row, encrypted) ∷ prepared) rows = do
      rows' ← update_cipher_row row encrypted rows
      update_cipher_rows prepared rows'

    -- `read` is the table as the batch was read and sealed again, and `rows` as its transaction
    -- finds it. The number of records that were migrated, with the table and the operations; an
    -- error leaves both as they were.
    unfoldable pub migrate_batch :
        (Text → Option Text)
        → List Row
        → List Row
        → List Operation
        → Result (ℕ × List Row × List Operation)
    unfolding batch_rows prepare_rows update_cipher_rows checkpoint
    migrate_batch random read rows operations = elim (batch_rows operation read) [
      | [] ↦ Errors.ok (0, rows, operations)
      | first ∷ others ↦ (do
        prepared ← prepare_rows random (first ∷ others)
        rows' ← update_cipher_rows prepared rows
        operations' ← checkpoint operation (length (first ∷ others)) operations
        Errors.ok (length (first ∷ others), rows', operations'))
    ]
