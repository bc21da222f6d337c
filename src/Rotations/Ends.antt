-- ===== src/Rotations/Ends.antt =====
-- `rotate_dek` ends, on every branch.
use configdeck.Auth.Session.{AuthenticatedSession, SessionSettings}
use configdeck.Crypto.Manager.{Primitives, CryptoManager, wrap_dek, unwrap_dek}
use configdeck.Errors.{
  Result, ok, Result-cases, ◌>>◌, >>=-eq-ok, >>-eq-ok, require, ok_or, database, crypto, conflict,
}
use configdeck.Prelude.{
  ℕ, suc, ◌+◌, ◌-◌, ◌≤◌, ◌<◌, ◌≡◌, refl, sym, ◌∙◌, not, any, Bool, List, [], ◌∷◌, ◌++◌, Option,
  some, Text, arith, length, find, eq_text, ◌&&◌, Option-cases, inl, inr, count_where,
}
use configdeck.Rotations.Batch.{Operation, refers, or_crypto}
use configdeck.Rotations.Dek.{Db, is_open, is_active, is_pending, count_dek_references}
use configdeck.Rotations.Progress.{room, migrate_dek_batches-ends}
use configdeck.Rotations.Whole.{
  new_operation, max_version, prepare_dek_operation, load_or_prepare_dek_operation, rotate_dek,
  require_recent_administrator, validate_rotation_reason, authorize_environment,
  ensure_primary_kek_active,
}
use configdeck.Rotations.{current_table, history_table, proposal_table}

count_where_le {ℓ} : {A : Type ℓ} (p : A → Bool) (xs : List A) → count_where p xs ≤ length xs
count_where_le p [] = omega arith
count_where_le p (x ∷ xs) = ground (arith, count_where_le p xs)

room-append :
    (os : List Operation) (o : Operation)
    → room (os ++ (o ∷ [])) ≡ room os + (o.total_records - o.processed_records)
room-append [] o = omega arith
room-append (p ∷ os) o = omega (arith, room-append os o)

-- All the records that are sealed, of every environment.
abbrev pub records : Db → ℕ
records db = length db.variables + length db.variable_versions + length db.items

module _ (lib : Primitives) (manager : CryptoManager) where
  count_dek_references_le :
      (environment_id : Text) (v : ℕ) (db : Db)
      → count_dek_references lib environment_id v db ≤ records db
  unfolding count_dek_references
  count_dek_references_le environment_id v db = omega (
    arith,
    count_where_le (refers (current_table lib) environment_id v) db.variables,
    count_where_le (refers (history_table lib) environment_id v) db.variable_versions,
    count_where_le (refers (proposal_table lib) environment_id v) db.items,
  )

  prepare-room :
      (environment_id operation_id : Text) (new_dek nonce : Option Text) (read db : Db)
      {r : Operation × Db}
      → prepare_dek_operation lib manager environment_id operation_id new_dek nonce read db ≡ ok r
      → room r.1.operations ≤ room db.operations + records read
  unfolding prepare_dek_operation
  prepare-room environment_id operation_id new_dek nonce read db {r} h =
      let (idle, h1) =
        >>-eq-ok (require (not (any (λ o. is_open o.status) read.operations)) conflict) _ h in
      let (key, p, h2) =
        >>=-eq-ok
          (ok_or database
            (find (λ k. eq_text k.environment_id environment_id && is_active k.status) read.keys))
          _ h1 in
      let (wrapped, q, h3) = >>=-eq-ok (ok_or database key.wrapped) _ h2 in
      let (source, s, h4) =
        >>=-eq-ok
          (or_crypto (
            unwrap_dek lib manager environment_id key.dek_version key.kek_version wrapped.ciphertext
              wrapped.nonce))
          _ h3 in
      let (dek, t, h5) = >>=-eq-ok (ok_or crypto new_dek) _ h4 in
      let (blob, v, h6) =
        >>=-eq-ok
          (or_crypto (
            wrap_dek lib manager nonce environment_id (suc (max_version environment_id read.keys))
              key.kek_version dek))
          _ h5 in
      let (single, h7) =
        >>-eq-ok
          (require
            (not
              (any (λ k. eq_text k.environment_id environment_id && is_pending k.status) db.keys))
            database)
          _ h6 in
      let o =
        new_operation operation_id environment_id key.dek_version
          (suc (max_version environment_id read.keys))
          (count_dek_references lib environment_id key.dek_version read) in
      let made : r.1.operations ≡ db.operations ++ (o ∷ []) = ground arith in
      rw made (
        omega (
          arith,
          count_dek_references_le environment_id key.dek_version read,
          room-append db.operations o,
        ))

  load_or_prepare-room :
      (environment_id operation_id : Text) (new_dek nonce : Option Text) (read db : Db)
      {r : Operation × Db}
      → load_or_prepare_dek_operation lib manager environment_id operation_id new_dek nonce read db
        ≡ ok r
      → room r.1.operations ≤ room db.operations + records read
  unfolding load_or_prepare_dek_operation
  load_or_prepare-room environment_id operation_id new_dek nonce read db {r} h =
      elim (Option-cases
        (find (λ o. eq_text o.environment_id environment_id && is_open o.status) read.operations)) [
          | inl e ↦
              prepare-room environment_id operation_id new_dek nonce read db {r = r}
                (sym (rw (load_or_prepare_dek_operation, e) refl) ∙ h)
          | inr (o, e) ↦ let same : r.1 ≡ db = ground arith in rw same (omega arith)
        ]

  -- A rotation of a data key ends, with an answer, whatever is in the database and whatever fails,
  -- on fuel for one turn of its loop more than the unfinished operations have records left and the
  -- tables have sealed records; and whatever other sessions do in between, if they leave the
  -- unfinished operations no more to do than they find.
  pub rotate_dek-ends :
      (settings : SessionSettings) (instant : ℕ) (session : AuthenticatedSession)
      (fingerprint environment_id reason operation_id : Text) (new_dek nonce : Option Text)
      (fuel : ℕ) (before : Db → Db) (acts : ℕ → ℕ → Db → Db) (between : Db → Db)
      (draws : ℕ → Text → Option Text) (db : Db)
      → ((d : Db) → room (before d).operations ≤ room d.operations)
      → ((n i : ℕ) (d : Db) → room (acts n i d).operations ≤ room d.operations)
      → room db.operations + records db < fuel
      → (r : Result (Unit {0}) × Db × Bool) × (rotate_dek lib manager settings instant session
            fingerprint environment_id reason operation_id new_dek nonce fuel before acts between
            draws db
          ≡ some r)
  unfolding rotate_dek
  rotate_dek-ends settings instant session fingerprint environment_id reason operation_id new_dek
        nonce fuel before acts between draws db calm quiet h =
      let start =
        require_recent_administrator settings instant session
        >> (validate_rotation_reason reason
            >> (authorize_environment session environment_id db
                >> (ensure_primary_kek_active lib manager fingerprint db
                    >> load_or_prepare_dek_operation lib manager environment_id operation_id new_dek
                        nonce db (before db)))) in
      let fits : (r : Operation × Db)
          → start ≡ ok r
          → room r.1.operations ≤ room (before db).operations + records db =
        λ r e.
          let (a, e1) = >>-eq-ok (require_recent_administrator settings instant session) _ e in
          let (b, e2) = >>-eq-ok (validate_rotation_reason reason) _ e1 in
          let (c, e3) = >>-eq-ok (authorize_environment session environment_id db) _ e2 in
          let (d, e4) = >>-eq-ok (ensure_primary_kek_active lib manager fingerprint db) _ e3 in
          load_or_prepare-room environment_id operation_id new_dek nonce db (before db) e4 in
      elim (Result-cases start) [
        | inr (e, p) ↦ rw (rotate_dek, p) (_, refl)
        | inl ((operation, prepared), p) ↦
            let (r, q) =
              migrate_dek_batches-ends lib manager operation fuel acts draws prepared quiet
                (omega (arith, h, calm db, fits (operation, prepared) p)) in
            elim (Result-cases r.0) [
              | inr (e, s) ↦ rw (rotate_dek, p, q, s) (_, refl)
              | inl (u, s) ↦ rw (rotate_dek, p, q, s) (_, refl)
            ]
      ]
