-- ===== src/Rotations/Finalized.antt =====
-- The end of a rotation destroys the old key, and no secret with it.
use configdeck.Auth.Session.{AuthenticatedSession}
use configdeck.Crypto.Manager.{Primitives, CryptoManager}
use configdeck.Errors.{ok, Result-cases, ◌>>◌, >>-eq-ok}
use configdeck.Prelude.{
  ℕ, ◌≤◌, ◌≡◌, refl, ◌∙◌, ap, false, ◌&&◌, List, [], ◌∷◌, Option, none, some, Text, arith, find,
  find-update_where, update_where, eq_text, eq_text_iff, Bool-cases, Option-cases, inl, inr, ◌==◌,
  count_where,
}
use configdeck.Rotations.Batch.{Operation, refers}
use configdeck.Rotations.Dek.{Db, KeyRow, active, retired, is_key, load_dek, count_dek_references}
use configdeck.Rotations.Refines.{key_of}
use configdeck.Rotations.Rely.{secrets_under}
use configdeck.Rotations.Secrets.{contents, reading}
use configdeck.Rotations.Whole.{
  is_retiring, is_starting, retired_keys, verify_dek, finalize_commit, verify_and_finalize_dek,
  validate_active_keys,
}
use configdeck.Rotations.{CipherTable, current_table, history_table, proposal_table}

module _ {Row : Type 0} (table : CipherTable Row) where
  -- Rows that no key of another version concerns are read alike.
  contents-keys :
      (keys keys' : Text → ℕ → Text) (e : Text) (v : ℕ)
      → ((e' : Text) (v' : ℕ) → (eq_text e' e && v' == v) ≡ false → keys' e' v' ≡ keys e' v')
      → (rows : List Row) → count_where (refers table e v) rows ≡ 0
      → contents table keys' rows ≡ contents table keys rows
  contents-keys keys keys' e v k [] h = refl
  contents-keys keys keys' e v k (r ∷ rs) h =
      let away : (eq_text (table.environment_id r) e && table.dek_version r == v) ≡ false =
        ground arith in
      let read : reading table keys' r ≡ reading table keys r =
        ap (λ key. table.open_row key (table.dek_version r) r)
          (k (table.environment_id r) (table.dek_version r) away) in
      rw (contents-keys keys keys' e v k rs (ground arith), read) refl

-- Two rows that hold the same wrapped key.
abbrev IsAlike : Option KeyRow → Option KeyRow → Type 0
IsAlike none none = Unit
IsAlike (some k) (some k') = (k.kek_version ≡ k'.kek_version) × (k.wrapped ≡ k'.wrapped)
IsAlike _ _ = ⊥

IsAlike-refl : (o : Option KeyRow) → IsAlike o o
IsAlike-refl none = tt
IsAlike-refl (some k) = (refl, refl)

-- Activating a key changes nothing in what is wrapped.
find-IsAlike :
    (operation : Operation) (e : Text) (v : ℕ) (keys : List KeyRow)
    → IsAlike (find (is_key e v) keys) (
        find
          (is_key e v)
          (update_where (is_starting operation) (λ k. record k { status = active }) keys))
find-IsAlike operation e v [] = tt
find-IsAlike operation e v (k ∷ ks) = elim (Bool-cases (is_starting operation k)) [
  | inl s ↦ elim (Bool-cases (is_key e v k)) [
    | inl f ↦ rw (s, f) (refl, refl)
    | inr f ↦ rw (s, f) (find-IsAlike operation e v ks)
  ]
  | inr s ↦ elim (Bool-cases (is_key e v k)) [
    | inl f ↦ rw (s, f) (refl, refl)
    | inr f ↦ rw (s, f) (find-IsAlike operation e v ks)
  ]
]

-- Retiring a key changes nothing in what is found of another one.
find-retired :
    (operation : Operation) (e : Text) (v : ℕ) (keys : List KeyRow)
    → (eq_text e operation.environment_id && v == operation.source_dek_version) ≡ false
    → find (is_key e v) (retired_keys operation keys) ≡ find (is_key e v) keys
find-retired operation e v keys away =
    find-update_where (is_key e v) (is_retiring operation)
      (λ k. record k { status = retired; wrapped = none })
      (λ k t.
        let other : is_key e v k ≡ false = ground (
          arith,
          eq_text_iff e operation.environment_id,
          eq_text_iff k.environment_id e,
          eq_text_iff k.environment_id operation.environment_id,
        ) in
        (other, other))
      keys

module _ (lib : Primitives) (manager : CryptoManager) where
  load_dek-IsAlike :
      (e : Text) (v : ℕ) (db db' : Db)
      → IsAlike (find (is_key e v) db.keys) (find (is_key e v) db'.keys)
      → load_dek lib manager e v db' ≡ load_dek lib manager e v db
  unfolding load_dek
  load_dek-IsAlike e v db db' a = elim (Option-cases (find (is_key e v) db.keys)) [
    | inl p ↦ elim (Option-cases (find (is_key e v) db'.keys)) [
      | inl q ↦ rw (load_dek, p, q) refl
      | inr (k', q) ↦ absurd (ground arith)
    ]
    | inr (k, p) ↦ elim (Option-cases (find (is_key e v) db'.keys)) [
      | inl q ↦ absurd (ground arith)
      | inr (k', q) ↦
          let version : k.kek_version ≡ k'.kek_version = ground arith in
          let blob : k.wrapped ≡ k'.wrapped = ground arith in
          rw (load_dek, p, q, version, blob) refl
    ]
  ]

  -- The tables after the transaction.
  record IsFinalized (operation : Operation) (db db' : Db) : Type 0 where
    pub keys :
        db'.keys
        ≡ update_where
            (is_starting operation)
            (λ k. record k { status = active })
            (retired_keys operation db.keys)
    pub variables : db'.variables ≡ db.variables
    pub variable_versions : db'.variable_versions ≡ db.variable_versions
    pub items : db'.items ≡ db.items

  finalize_commit-IsFinalized :
      (session : AuthenticatedSession) (operation : Operation) (n : ℕ) (db : Db) {db' : Db}
      → finalize_commit session operation n db ≡ ok db'
      → IsFinalized operation db db'
  unfolding finalize_commit
  finalize_commit-IsFinalized session operation n db h = record {
    keys = ground arith;
    variables = ground arith;
    variable_versions = ground arith;
    items = ground arith;
  }

  key_of-finalized :
      (operation : Operation) (db db' : Db) (e : Text) (v : ℕ)
      → IsFinalized operation db db'
      → (eq_text e operation.environment_id && v == operation.source_dek_version) ≡ false
      → key_of lib manager db' e v ≡ key_of lib manager db e v
  key_of-finalized operation db db' e v f away =
      let alike : IsAlike (find (is_key e v) db.keys) (find (is_key e v) db'.keys) =
        rw (f.keys, ← find-retired operation e v db.keys away)
          (find-IsAlike operation e v (retired_keys operation db.keys)) in
      rw (key_of, load_dek-IsAlike e v db db' alike) refl

  secrets-finalized :
      (operation : Operation) (db db' : Db)
      → IsFinalized operation db db'
      → count_dek_references lib operation.environment_id operation.source_dek_version db ≡ 0
      → secrets_under lib (key_of lib manager db') db'
        ≡ secrets_under lib (key_of lib manager db) db
  unfolding count_dek_references
  secrets-finalized operation db db' f none_left =
      let e = operation.environment_id in
      let v = operation.source_dek_version in
      let same = λ (e' : Text) (v' : ℕ). key_of-finalized operation db db' e' v' f in
      let current =
        ap (contents (current_table lib) (key_of lib manager db')) f.variables
        ∙ contents-keys (current_table lib) (key_of lib manager db) (key_of lib manager db') e v
            same db.variables (omega (arith, none_left)) in
      let history =
        ap (contents (history_table lib) (key_of lib manager db')) f.variable_versions
        ∙ contents-keys (history_table lib) (key_of lib manager db) (key_of lib manager db') e v
            same db.variable_versions (omega (arith, none_left)) in
      let proposals =
        ap (contents (proposal_table lib) (key_of lib manager db')) f.items
        ∙ contents-keys (proposal_table lib) (key_of lib manager db) (key_of lib manager db') e v
            same db.items (omega (arith, none_left)) in
      rw (current, history, proposals) refl

  -- Verifying and finalizing a rotation changes no secret, whatever state it finds and whether it
  -- succeeds or fails, though what it has verified is read ahead of its transaction: if no more
  -- records are sealed under the old key when the transaction begins than were read, each record of
  -- the three tables opens, under the keys that the database has after the old one is erased, to
  -- what it opened to under those that the transaction found.
  pub verify_and_finalize_dek-refines :
      (session : AuthenticatedSession) (operation : Operation) (n : ℕ) (read db : Db)
      → count_dek_references lib operation.environment_id operation.source_dek_version db
        ≤ count_dek_references lib operation.environment_id operation.source_dek_version read
      → let db' = (verify_and_finalize_dek lib manager session operation n read db).1 in
        secrets_under lib (key_of lib manager db') db'
        ≡ secrets_under lib (key_of lib manager db) db
  unfolding verify_and_finalize_dek verify_dek
  verify_and_finalize_dek-refines session operation n read db still =
      elim (Result-cases
        (verify_dek lib manager operation read >> finalize_commit session operation n db)) [
          | inr (e, p) ↦ rw (verify_and_finalize_dek, p) refl
          | inl (db', p) ↦
              let (v, c) = >>-eq-ok (verify_dek lib manager operation read) _ p in
              let none_read : count_dek_references lib operation.environment_id
                    operation.source_dek_version read
                  ≡ 0 =
                ground arith in
              let kept =
                secrets-finalized operation db db'
                  (finalize_commit-IsFinalized session operation n db c)
                  (omega (arith, none_read, still)) in
              elim (Result-cases (validate_active_keys lib manager db'.keys)) [
                | inr (e, q) ↦ rw (verify_and_finalize_dek, p, q) kept
                | inl (u, q) ↦ rw (verify_and_finalize_dek, p, q) kept
              ]
        ]
