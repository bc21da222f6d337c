-- ===== src/Catalog/Histories.antt =====
-- Sequences of changes of the catalog, of any users and in any order.
use configdeck.Auth.Session.{AuthenticatedSession}
use configdeck.Catalog.Archived.{set_archived-HasActive, set_archived-written}
use configdeck.Catalog.Environments
use configdeck.Catalog.Environments.{
  CatalogInput, service_of, is_active_in, has_id, new_environment, renamed_environment,
  archived_environment, name_taken,
}
use configdeck.Catalog.Services
use configdeck.Catalog.Services.{Draw, insert_environments, insert_service, update_service}
use configdeck.Catalog.Stays.{HasActive, IsDistinct, IsDistinct-append, IsDistinct-update, fresh}
use configdeck.Catalog.{
  EnvironmentRow, ServiceRow, Db, is_service, environment_taken, insert_audit,
  require_manage_metadata, validate_name,
}
use configdeck.Crypto.Manager.{Primitives, CryptoManager, wrap_dek}
use configdeck.Errors.{
  ok, >>=-eq-ok, >>-eq-ok, ok_or, require, require-eq-ok, not_found, database, conflict, crypto,
}
use configdeck.Prelude.{
  ℕ, ◌≡◌, refl, Bool, false, not, ◌&&◌, List, [], ◌∷◌, ◌++◌, Option, none, Text, arith, any, find,
  update_where, any-append, any-update_where, is_some,
}
use configdeck.Rotations.Batch.{or_crypto}
use configdeck.Variables.Validate.{validate_description}

pub data Step (db db' : Db) : Type 0 where
  creating_service :
      (to_lowercase : Text → Text) (s : AuthenticatedSession) (input : CatalogInput)
      (service_id now : Text)
      → Services.create to_lowercase s input service_id now db ≡ ok db'
      → Step db db'
  creating_with_environments :
      (lib : Primitives) (m : CryptoManager) (to_lowercase : Text → Text) (s : AuthenticatedSession)
      (input : CatalogInput) (service_id : Text) (first second third : Draw) (now : Text)
      → Services.create_with_default_environments lib m to_lowercase s input service_id first second
          third now db
        ≡ ok db'
      → Step db db'
  updating_service :
      (to_lowercase : Text → Text) (s : AuthenticatedSession) (service_id : Text)
      (input : CatalogInput) (now : Text)
      → Services.update to_lowercase s service_id input now db ≡ ok db'
      → Step db db'
  archiving_service :
      (s : AuthenticatedSession) (service_id : Text) (archived : Bool) (now : Text)
      → Services.set_archived s service_id archived now db ≡ ok db'
      → Step db db'
  creating :
      (lib : Primitives) (m : CryptoManager) (to_lowercase : Text → Text) (s : AuthenticatedSession)
      (service_id : Text) (input : CatalogInput) (environment_id : Text) (dek nonce : Option Text)
      (now : Text)
      → Environments.create lib m to_lowercase s service_id input environment_id dek nonce now db
        ≡ ok db'
      → Step db db'
  updating :
      (to_lowercase : Text → Text) (s : AuthenticatedSession) (environment_id : Text)
      (input : CatalogInput) (now : Text)
      → Environments.update to_lowercase s environment_id input now db ≡ ok db'
      → Step db db'
  archiving :
      (s : AuthenticatedSession) (environment_id : Text) (archived : Bool) (now : Text)
      → Environments.set_archived s environment_id archived now db ≡ ok db'
      → Step db db'

pub data Reach (db : Db) : Db → Type 0 where
  here : Reach db db
  next : {mid last : Db} → Reach db mid → Step mid last → Reach db last

module _ (service_id : Text) where
  -- What every step keeps.
  pub record IsSound (db : Db) : Type 0 where
    pub distinct : IsDistinct db.environments
    pub has_active : HasActive service_id db

  same_environments : {db db' : Db} → db'.environments ≡ db.environments → IsSound db → IsSound db'
  same_environments e s = record { distinct = rw e s.distinct; has_active = rw e s.has_active }

  one_more :
      (new : EnvironmentRow) {db db' : Db}
      → environment_taken new db.environments ≡ false
      → db'.environments ≡ db.environments ++ (new ∷ [])
      → IsSound db
      → IsSound db'
  one_more new {db} free e s = record {
    distinct =
        rw e (IsDistinct-append db.environments new s.distinct (fresh new db.environments free));
    has_active = rw e (
        ground
          (arith, s.has_active, any-append (is_active_in service_id) db.environments (new ∷ [])));
  }

  update_service-IsSound :
      (s : AuthenticatedSession) (id : Text) (set : ServiceRow → ServiceRow) (action now : Text)
      (db : Db) {db' : Db}
      → update_service s id set action now db ≡ ok db'
      → IsSound db
      → IsSound db'
  unfolding update_service insert_audit
  update_service-IsSound s id set action now db {db'} h =
      same_environments {db = db} {db' = db'} (ground arith)

  insert_service-IsSound :
      (s : AuthenticatedSession) (id : Text) (name : Text × Text) (description : Option Text)
      (now : Text) (db : Db) {db' : Db}
      → insert_service s id name description now db ≡ ok db'
      → IsSound db
      → IsSound db'
  unfolding insert_service insert_audit
  insert_service-IsSound s id name description now db {db'} h =
      same_environments {db = db} {db' = db'} (ground arith)

  insert_environments-IsSound :
      (lib : Primitives) (m : CryptoManager) (to_lowercase : Text → Text) (s : AuthenticatedSession)
      (id : Text) (kek_version : ℕ) (now : Text) (drawn : List (Text × Draw)) (db : Db) {db' : Db}
      → insert_environments lib m to_lowercase s id kek_version now drawn db ≡ ok db'
      → IsSound db
      → IsSound db'
  unfolding insert_environments insert_audit
  insert_environments-IsSound lib m to_lowercase s id kek_version now [] db {db'} h k =
      let same : db ≡ db' = cc in rw (← same) k
  insert_environments-IsSound lib m to_lowercase s id kek_version now ((name, draw) ∷ rest) db {db'}
        h k =
      let (dek, p, h1) = >>=-eq-ok (ok_or crypto draw.dek) _ h in
      let (wrapped, q, h2) =
        >>=-eq-ok (or_crypto (wrap_dek lib m draw.nonce draw.environment_id 1 kek_version dek)) _
          h1 in
      let new = new_environment s draw.environment_id id name (to_lowercase name) none now in
      let (free, h3) =
        >>-eq-ok (require (not (environment_taken new db.environments)) database) _ h2 in
      insert_environments-IsSound lib m to_lowercase s id kek_version now rest _ {db' = db'} h3
        (one_more new {db = db} (ground (arith, require-eq-ok _ database free)) refl k)

  create-IsSound :
      (lib : Primitives) (m : CryptoManager) (to_lowercase : Text → Text) (s : AuthenticatedSession)
      (id : Text) (input : CatalogInput) (environment_id : Text) (new_dek nonce : Option Text)
      (now : Text) (db : Db) {db' : Db}
      → Environments.create lib m to_lowercase s id input environment_id new_dek nonce now db
        ≡ ok db'
      → IsSound db
      → IsSound db'
  unfolding Environments.create insert_audit
  create-IsSound lib m to_lowercase s id input environment_id new_dek nonce now db {db'} h k =
      let (a, h1) = >>-eq-ok (require_manage_metadata s) _ h in
      let (name, b, h2) = >>=-eq-ok (validate_name to_lowercase input.name) _ h1 in
      let (description, c, h3) = >>=-eq-ok (validate_description input.description) _ h2 in
      let (service, d, h4) =
        >>=-eq-ok (ok_or not_found (find (is_service id s.user.organization_id) db.services)) _
          h3 in
      let (e, h5) = >>-eq-ok (require (not (is_some service.archived_at)) conflict) _ h4 in
      let (kek_version, f, h6) = >>=-eq-ok (ok_or database db.kek_version) _ h5 in
      let (dek, g, h7) = >>=-eq-ok (ok_or crypto new_dek) _ h6 in
      let (wrapped, i, h8) =
        >>=-eq-ok (or_crypto (wrap_dek lib m nonce environment_id 1 kek_version dek)) _ h7 in
      let new = new_environment s environment_id id name.0 name.1 description now in
      let (free, h9) =
        >>-eq-ok (require (not (environment_taken new db.environments)) conflict) _ h8 in
      one_more new {db = db} {db' = db'} (ground (arith, require-eq-ok _ conflict free))
        (ground arith) k

  update-IsSound :
      (to_lowercase : Text → Text) (s : AuthenticatedSession) (environment_id : Text)
      (input : CatalogInput) (now : Text) (db : Db) {db' : Db}
      → Environments.update to_lowercase s environment_id input now db ≡ ok db'
      → IsSound db
      → IsSound db'
  unfolding Environments.update insert_audit
  update-IsSound to_lowercase s environment_id input now db {db'} h k =
      let (a, h1) = >>-eq-ok (require_manage_metadata s) _ h in
      let (name, b, h2) = >>=-eq-ok (validate_name to_lowercase input.name) _ h1 in
      let (description, c, h3) = >>=-eq-ok (validate_description input.description) _ h2 in
      let (home, d, h4) = >>=-eq-ok (service_of s environment_id db) _ h3 in
      let (free, h5) =
        >>-eq-ok (require (not (name_taken environment_id home name.1 db.environments)) conflict) _
          h4 in
      let f = renamed_environment s name.0 name.1 description now in
      let written : db'.environments ≡ update_where (has_id environment_id) f db.environments =
        ground arith in
      record {
        distinct =
            rw written
              (IsDistinct-update (has_id environment_id) f (λ e. refl) db.environments k.distinct);
        has_active = rw written (
            any-update_where (is_active_in service_id) (has_id environment_id) f (λ x p t. p)
              db.environments k.has_active);
      }

  set_archived-IsDistinct :
      (s : AuthenticatedSession) (environment_id : Text) (archived : Bool) (now : Text) (db : Db)
      {db' : Db}
      → Environments.set_archived s environment_id archived now db ≡ ok db'
      → IsDistinct db.environments
      → IsDistinct db'.environments
  set_archived-IsDistinct s environment_id archived now db {db'} h d =
      rw (set_archived-written s environment_id archived now db {db' = db'} d h) (
        IsDistinct-update (has_id environment_id) (archived_environment s archived now) (λ e. refl)
          db.environments d)

  Step-IsSound : {db db' : Db} → Step db db' → IsSound db → IsSound db'
  unfolding Services.create Services.create_with_default_environments Services.update
      Services.set_archived
  Step-IsSound {db} {db'} (creating_service l s input id now h) k =
      let (a, h1) = >>-eq-ok (require_manage_metadata s) _ h in
      let (name, b, h2) = >>=-eq-ok (validate_name l input.name) _ h1 in
      let (description, c, h3) = >>=-eq-ok (validate_description input.description) _ h2 in
      insert_service-IsSound s id name description now db h3 k
  Step-IsSound {db} {db'} (creating_with_environments lib m l s input id x y z now h) k =
      let (a, h1) = >>-eq-ok (require_manage_metadata s) _ h in
      let (name, b, h2) = >>=-eq-ok (validate_name l input.name) _ h1 in
      let (description, c, h3) = >>=-eq-ok (validate_description input.description) _ h2 in
      let (kek_version, d, h4) = >>=-eq-ok (ok_or database db.kek_version) _ h3 in
      let (mid, e, h5) = >>=-eq-ok (insert_service s id name description now db) _ h4 in
      insert_environments-IsSound lib m l s id kek_version now (Services.default_environments x y z)
        mid h5 (insert_service-IsSound s id name description now db e k)
  Step-IsSound {db} {db'} (updating_service l s id input now h) k =
      let (a, h1) = >>-eq-ok (require_manage_metadata s) _ h in
      let (name, b, h2) = >>=-eq-ok (validate_name l input.name) _ h1 in
      let (description, c, h3) = >>=-eq-ok (validate_description input.description) _ h2 in
      let (d, h4) =
        >>-eq-ok
          (require
            (not (
              any (is_service id s.user.organization_id) db.services
              && Services.name_taken id s.user.organization_id name.1 db.services))
            conflict)
          _ h3 in
      update_service-IsSound s id _ _ now db h4 k
  Step-IsSound {db} {db'} (archiving_service s id archived now h) k =
      let (a, h1) = >>-eq-ok (require_manage_metadata s) _ h in
      update_service-IsSound s id _ _ now db h1 k
  Step-IsSound {db} (creating lib m l s id input environment_id dek nonce now h) k =
      create-IsSound lib m l s id input environment_id dek nonce now db h k
  Step-IsSound {db} (updating l s environment_id input now h) k =
      update-IsSound l s environment_id input now db h k
  Step-IsSound {db} (archiving s environment_id archived now h) k = record {
    distinct = set_archived-IsDistinct s environment_id archived now db h k.distinct;
    has_active =
        set_archived-HasActive s environment_id archived now service_id db h k.distinct
          k.has_active;
  }

  -- A service that has an active environment has one after every sequence of created, renamed,
  -- archived and restored services and environments, by anybody, if identifiers are primary keys;
  -- and they stay such.
  pub Reach-IsSound : {db db' : Db} → Reach db db' → IsSound db → IsSound db'
  Reach-IsSound here k = k
  Reach-IsSound (next r step) k = Step-IsSound step (Reach-IsSound r k)
