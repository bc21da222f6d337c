-- ===== src/Tests/Catalog.antt =====
-- A service with two environments, one of which is archived, and a third one that is created.
use configdeck.Auth.Session.{require_full}
use configdeck.Catalog.Environments.{
  CatalogInput, create, set_archived, service_of, may_archive, is_active_in, new_environment,
  first_key, active_dek,
}
use configdeck.Catalog.Histories.{here, next, archiving, IsSound, Reach-IsSound}
use configdeck.Catalog.Keys.{active_dek-create}
use configdeck.Catalog.{
  EnvironmentRow, CatalogAudit, Db, require_manage_metadata, validate_name, insert_audit,
}
use configdeck.Crypto.Aad.{wrapped_dek_aad, field}
use configdeck.Crypto.Bytes.{be_bytes}
use configdeck.Crypto.Manager.{CryptoManager, wrap_dek, encrypt}
use configdeck.Errors.{ok, err, last_active_environment}
use configdeck.Prelude.Space.{trim, trim_start, trim_end, is_whitespace, is_control}
use configdeck.Prelude.{
  ◌≡◌, refl, any, [], ◌∷◌, ◌++◌, Option, none, some, Text, codes, eq_text, eq_text_iff, true,
}
use configdeck.Tests.Accounts.{an_administrator}
use configdeck.Tests.Ciphers.{clear, key32, nonce12}
use configdeck.Users.{allows}
use configdeck.Variables.Validate.{validate_description}

abbrev manager : CryptoManager
manager = record { master_key = key32 9; previous_master_key = none }

abbrev an_environment : Text → Option Text → EnvironmentRow
an_environment id archived_at = record {
  id = id;
  service_id = codes "v";
  name = id;
  name_normalized = id;
  description = none;
  archived_at = archived_at;
  created_at = codes "t0";
  updated_at = codes "t0";
  created_by = codes "u";
  updated_by = codes "u";
}

abbrev a_db : Db
a_db = record {
  services =
      record {
        id = codes "v";
        organization_id = codes "o";
        name = codes "api";
        name_normalized = codes "api";
        description = none;
        archived_at = none;
        created_at = codes "t0";
        updated_at = codes "t0";
        created_by = codes "u";
        updated_by = codes "u";
      }
      ∷ [];
  environments = an_environment (codes "e1") none ∷ an_environment (codes "e2") none ∷ [];
  keys = [];
  kek_version = some 1;
  requests = [];
  audit = [];
}

abbrev a_line : Text → Text → CatalogAudit
a_line action environment_id = record {
  occurred_at = codes "t1";
  actor_user_id = codes "u";
  action = action;
  service_id = codes "v";
  environment_id = some environment_id;
}

abbrev archived : Db
archived = record a_db {
  environments =
      record (an_environment (codes "e1") (some (codes "t1"))) { updated_at = codes "t1" }
      ∷ an_environment (codes "e2") none
      ∷ [];
  audit = a_line (codes "ARCHIVE_ENVIRONMENT") (codes "e1") ∷ [];
}

archiving_one : set_archived an_administrator (codes "e1") true (codes "t1") a_db ≡ ok archived
unfolding set_archived service_of may_archive require_manage_metadata require_full allows
    insert_audit eq_text
archiving_one = refl

archiving_last :
    set_archived an_administrator (codes "e2") true (codes "t2") archived
    ≡ err last_active_environment
unfolding set_archived service_of may_archive require_manage_metadata require_full allows
    insert_audit eq_text
archiving_last = refl

apart : codes "e2" ≡ codes "e1" → ⊥
unfolding eq_text
apart h = let same = (eq_text_iff (codes "e2") (codes "e1")).1 h in cc

has_active : any (is_active_in (codes "v")) a_db.environments ≡ true
unfolding eq_text
has_active = refl

sound : IsSound (codes "v") a_db
sound = record { distinct = ((apart, tt), (tt, tt)); has_active = has_active }

Reach-IsSound_example : IsSound (codes "v") archived
Reach-IsSound_example =
    Reach-IsSound (codes "v")
      (next here (archiving an_administrator (codes "e1") true (codes "t1") archiving_one)) sound

abbrev created : Db
created = record a_db {
  environments =
      a_db.environments
      ++ (new_environment an_administrator (codes "e3") (codes "v") (codes "QA") (codes "QA") none
            (codes "t1")
          ∷ []);
  keys = first_key (codes "e3") 1 (record { ciphertext = key32 7; nonce = nonce12 }) ∷ [];
  audit = a_line (codes "CREATE_ENVIRONMENT") (codes "e3") ∷ [];
}

abbrev an_input : CatalogInput
an_input = record { name = codes "QA"; description = none }

creating_third :
    create clear manager
      (λ t. t)
      an_administrator
      (codes "v")
      an_input
      (codes "e3")
      (some (key32 7))
      (some nonce12)
      (codes "t1")
      a_db
    ≡ ok created
unfolding create require_manage_metadata require_full allows validate_name validate_description
    wrap_dek encrypt wrapped_dek_aad field be_bytes insert_audit trim trim_start trim_end
    is_whitespace is_control eq_text
creating_third = refl

active_dek-create_example : active_dek clear manager (codes "e3") created.keys ≡ ok (1, key32 7)
active_dek-create_example =
    active_dek-create clear manager (λ t. t) an_administrator (codes "v") an_input (codes "e3")
      (key32 7) nonce12 (codes "t1") a_db {db' = created} refl refl refl creating_third
