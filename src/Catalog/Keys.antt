-- ===== src/Catalog/Keys.antt =====
-- The key of a new environment.
use configdeck.Auth.Session.{AuthenticatedSession}
use configdeck.Catalog.Environments.{CatalogInput, create, new_environment, first_key, active_dek}
use configdeck.Catalog.{
  Db, is_service, environment_taken, insert_audit, require_manage_metadata, validate_name,
}
use configdeck.Crypto.Manager.RoundTrip.{unwrap_dek-wrap}
use configdeck.Crypto.Manager.{Primitives, CryptoManager, wrap_dek}
use configdeck.Errors.{ok, >>=-eq-ok, >>-eq-ok, ok_or, require, not_found, database, conflict}
use configdeck.Prelude.{
  ◌≡◌, refl, true, false, not, ◌&&◌, List, [], ◌∷◌, ◌++◌, some, Text, length, eq_text, eq_text_refl,
  arith, any, find, inl, is_some,
}
use configdeck.Rotations.Batch.{or_crypto}
use configdeck.Rotations.Kept.{or_crypto-eq-ok}
use configdeck.Rotations.Dek.{KeyRow, is_active}
use configdeck.Variables.Validate.{validate_description}

find-last :
    (id : Text) (ks : List KeyRow) (k : KeyRow)
    → any (λ x. eq_text x.environment_id id) ks ≡ false
    → (eq_text k.environment_id id && is_active k.status) ≡ true
    → find (λ x. eq_text x.environment_id id && is_active x.status) (ks ++ (k ∷ [])) ≡ some k
find-last id [] k f h = ground arith
find-last id (x ∷ xs) k f h = ground (arith, find-last id xs k)

-- An environment that has been created has a data key that loads, in version 1, and it is the one
-- that was drawn, if that has 32 bytes and its nonce 12, and no key was stored for the identifier
-- before.
pub active_dek-create :
    (lib : Primitives) (m : CryptoManager) (to_lowercase : Text → Text) (s : AuthenticatedSession)
    (id : Text) (input : CatalogInput) (environment_id dek nonce now : Text) (db : Db) {db' : Db}
    → length nonce ≡ 12
    → length dek ≡ 32
    → any (λ k. eq_text k.environment_id environment_id) db.keys ≡ false
    → create lib m to_lowercase s id input environment_id (some dek) (some nonce) now db ≡ ok db'
    → active_dek lib m environment_id db'.keys ≡ ok (1, dek)
unfolding create insert_audit active_dek
active_dek-create lib m to_lowercase s id input environment_id dek nonce now db {db'} n l f h =
    let (a, h1) = >>-eq-ok (require_manage_metadata s) _ h in
    let (name, b, h2) = >>=-eq-ok (validate_name to_lowercase input.name) _ h1 in
    let (description, c, h3) = >>=-eq-ok (validate_description input.description) _ h2 in
    let (service, d, h4) =
      >>=-eq-ok (ok_or not_found (find (is_service id s.user.organization_id) db.services)) _ h3 in
    let (e, h5) = >>-eq-ok (require (not (is_some service.archived_at)) conflict) _ h4 in
    let (kek_version, g, h6) = >>=-eq-ok (ok_or database db.kek_version) _ h5 in
    let (wrapped, i, h7) =
      >>=-eq-ok (or_crypto (wrap_dek lib m (some nonce) environment_id 1 kek_version dek)) _ h6 in
    let new = new_environment s environment_id id name.0 name.1 description now in
    let (free, h8) =
      >>-eq-ok (require (not (environment_taken new db.environments)) conflict) _ h7 in
    let key = first_key environment_id kek_version wrapped in
    let keys : db'.keys ≡ db.keys ++ (key ∷ []) = ground arith in
    let found =
      find-last environment_id db.keys key f (ground (arith, eq_text_refl environment_id)) in
    let sealed = or_crypto-eq-ok (wrap_dek lib m (some nonce) environment_id 1 kek_version dek) i in
    let opened =
      unwrap_dek-wrap lib m m environment_id dek nonce 1 kek_version {blob = wrapped} n l sealed
        (inl refl) in
    rw (keys, active_dek, found, opened) refl
