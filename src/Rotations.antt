-- ===== src/Rotations.antt =====
-- src/rotations/mod.rs: the records that are sealed under the data key of an environment, and what
-- is done with one of them. A row is what the queries of the rotation read of a record, with the
-- version of the key that they select by; its table is ordered by them, so that a list serves.
pub mod Batch
pub mod Dek
pub mod Whole
pub mod Progress
pub mod Ends
pub mod Laws
pub mod Secrets
pub mod Balance
pub mod Kept
pub mod Written
pub mod Rely
pub mod Refines
pub mod Runs
pub mod Emptied
pub mod Completes
pub mod Finalized
use configdeck.Crypto.Aad.{CurrentValueContext, ProposedValueContext}
use configdeck.Crypto.Manager.{
  Primitives, EncryptedBlob, encrypt_current_value, decrypt_current_value, encrypt_proposed_value,
  decrypt_proposed_value,
}
use configdeck.Crypto.Outcome.{Outcome, or_else, err, authentication}
use configdeck.Prelude.{ℕ, Bool, true, false, Option, none, some, Text}

-- `CurrentCipherRow`, of variables
pub record CurrentCipherRow : Type 0 where
  pub id : Text
  pub service_id : Text
  pub environment_id : Text
  pub version : ℕ
  pub dek_version : ℕ
  pub ciphertext : Text
  pub nonce : Text

-- `HistoryCipherRow`, of variable_versions
pub record HistoryCipherRow : Type 0 where
  pub id : Text
  pub service_id : Text
  pub environment_id : Text
  pub variable_id : Text
  pub version : ℕ
  pub dek_version : ℕ
  pub ciphertext : Text
  pub nonce : Text

-- The variable and version for which the value of an old direct application was sealed.
pub record Legacy : Type 0 where
  pub variable_id : Text
  pub variable_version : ℕ

-- `ProposalCipherRow`, of change_request_items that have a proposed value. `legacy` is there where
-- the query finds `legacy_direct_apply`.
pub record ProposalCipherRow : Type 0 where
  pub id : Text
  pub service_id : Text
  pub environment_id : Text
  pub change_request_id : Text
  pub item_revision : ℕ
  pub dek_version : ℕ
  pub ciphertext : Text
  pub nonce : Text
  pub legacy : Option Legacy

-- What the rotation does with a row of a table: `open` and `seal` take the key and its version, and
-- `seal` also what the generator of nonces gives.
pub record CipherTable (Row : Type 0) : Type 0 where
  pub id : Row → Text
  pub environment_id : Row → Text
  pub dek_version : Row → ℕ
  pub open_row : Text → ℕ → Row → Outcome Text
  pub seal_row : Option Text → Text → ℕ → Row → Text → Outcome EncryptedBlob
  pub stored : ℕ → EncryptedBlob → Row → Row

abbrev pub current_context : ℕ → CurrentCipherRow → CurrentValueContext
current_context dek_version row = record {
  service_id = row.service_id;
  environment_id = row.environment_id;
  variable_id = row.id;
  version = row.version;
  dek_version = dek_version;
}

abbrev pub history_context : ℕ → HistoryCipherRow → CurrentValueContext
history_context dek_version row = record {
  service_id = row.service_id;
  environment_id = row.environment_id;
  variable_id = row.variable_id;
  version = row.version;
  dek_version = dek_version;
}

abbrev pub proposal_context : ℕ → ProposalCipherRow → ProposedValueContext
proposal_context dek_version row = record {
  service_id = row.service_id;
  environment_id = row.environment_id;
  change_request_id = row.change_request_id;
  item_id = row.id;
  item_revision = row.item_revision;
  dek_version = dek_version;
}

abbrev pub legacy_context : ℕ → ProposalCipherRow → Legacy → CurrentValueContext
legacy_context dek_version row legacy = record {
  service_id = row.service_id;
  environment_id = row.environment_id;
  variable_id = legacy.variable_id;
  version = legacy.variable_version;
  dek_version = dek_version;
}

module _ (lib : Primitives) where
  unfoldable pub current_table : CipherTable CurrentCipherRow
  current_table = record {
    id = λ row. row.id;
    environment_id = λ row. row.environment_id;
    dek_version = λ row. row.dek_version;
    open_row =
        λ dek v row. decrypt_current_value lib dek (current_context v row) row.ciphertext row.nonce;
    seal_row = λ random dek v row. encrypt_current_value lib random dek (current_context v row);
    stored = λ v blob row. record row {
      dek_version = v;
      ciphertext = blob.ciphertext;
      nonce = blob.nonce;
    };
  }

  unfoldable pub history_table : CipherTable HistoryCipherRow
  history_table = record {
    id = λ row. row.id;
    environment_id = λ row. row.environment_id;
    dek_version = λ row. row.dek_version;
    open_row =
        λ dek v row. decrypt_current_value lib dek (history_context v row) row.ciphertext row.nonce;
    seal_row = λ random dek v row. encrypt_current_value lib random dek (history_context v row);
    stored = λ v blob row. record row {
      dek_version = v;
      ciphertext = blob.ciphertext;
      nonce = blob.nonce;
    };
  }

  -- An old direct application stored its value as it was sealed for the variable.
  unfoldable pub open_proposal : Text → ℕ → ProposalCipherRow → Outcome Text
  open_proposal dek v row =
      or_else (decrypt_proposed_value lib dek (proposal_context v row) row.ciphertext row.nonce)
        (elim row.legacy [
          | none ↦ err authentication
          | some legacy ↦
              decrypt_current_value lib dek (legacy_context v row legacy) row.ciphertext row.nonce
        ])

  unfoldable pub proposal_table : CipherTable ProposalCipherRow
  unfolding open_proposal
  proposal_table = record {
    id = λ row. row.id;
    environment_id = λ row. row.environment_id;
    dek_version = λ row. row.dek_version;
    open_row = open_proposal;
    seal_row = λ random dek v row. encrypt_proposed_value lib random dek (proposal_context v row);
    stored = λ v blob row. record row {
      dek_version = v;
      ciphertext = blob.ciphertext;
      nonce = blob.nonce;
    };
  }
