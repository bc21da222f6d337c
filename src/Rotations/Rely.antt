-- ===== src/Rotations/Rely.antt =====
-- What a rotation keeps of the database, and what it lets other sessions do.
use configdeck.Crypto.Manager.{Primitives}
use configdeck.Crypto.Outcome.{Outcome}
use configdeck.Errors.{Result, ok, err}
use configdeck.Prelude.{
  ℕ, ◌+◌, ◌≡◌, refl, ◌∙◌, List, Text, inl, inr, Bool, Bool-cases, ◌==◌, update_where,
}
use configdeck.Rotations.Balance.{processed, processed-update}
use configdeck.Rotations.Batch.{Operation}
use configdeck.Rotations.Dek.{
  Db, Turn, again, done, failing, stage, record_rotation_issue, count_dek_references,
}
use configdeck.Rotations.Secrets.{IsDistinct, AreUnwritten, contents}
use configdeck.Rotations.{current_table, history_table, proposal_table}

-- The secrets of the database: by table and identifier, what opens under the given keys.
abbrev pub Secrets : Type 0
Secrets = List (Text × Outcome Text) × List (Text × Outcome Text) × List (Text × Outcome Text)

abbrev pub state : Turn → Db
state (again db) = db
state (done db) = db
state (failing e db) = db

module _ (lib : Primitives) where
  abbrev pub secrets_under : (Text → ℕ → Text) → Db → Secrets
  secrets_under keys db = (
    contents (current_table lib) keys db.variables,
    contents (history_table lib) keys db.variable_versions,
    contents (proposal_table lib) keys db.items,
  )

  -- Identifiers are primary keys of the three tables.
  pub record IsKeyed (db : Db) : Type 0 where
    pub variables : IsDistinct (current_table lib) db.variables
    pub variable_versions : IsDistinct (history_table lib) db.variable_versions
    pub items : IsDistinct (proposal_table lib) db.items

  module _ (operation : Operation) where
    -- What the operation counts as processed, with what is still sealed under the old key.
    unfoldable pub balance : Db → ℕ
    unfolding count_dek_references
    balance db =
        processed operation.id db.operations
        + count_dek_references lib operation.environment_id operation.source_dek_version db

    module _ (keys : Text → ℕ → Text) where
      pub record IsKept (db db' : Db) : Type 0 where
        pub secrets : secrets_under keys db' ≡ secrets_under keys db
        pub keyed : IsKeyed db'
        pub same_keys : db'.keys ≡ db.keys
        pub balanced : balance db' ≡ balance db

      pub IsKept-trans : (a b c : Db) → IsKept a b → IsKept b c → IsKept a c
      IsKept-trans a b c p q = record {
        secrets = q.secrets ∙ p.secrets;
        keyed = q.keyed;
        same_keys = q.same_keys ∙ p.same_keys;
        balanced = q.balanced ∙ p.balanced;
      }

      -- Each record of the first database that the second still has under the old key is there as
      -- it was.
      pub record IsUnwritten (db db' : Db) : Type 0 where
        pub variables : AreUnwritten (current_table lib) operation db.variables db'.variables
        pub variable_versions :
            AreUnwritten (history_table lib) operation db.variable_versions db'.variable_versions
        pub items : AreUnwritten (proposal_table lib) operation db.items db'.items

      -- What other sessions may do between the reading of a batch and its transaction, as other
      -- runs of the rotation do, while writes are blocked.
      unfoldable pub Allows : Db → Db → Type 0
      Allows db db' = IsKeyed db → IsKept db db' × IsUnwritten db db'

      unfoldable pub Keeps : Db → Db → Type 0
      Keeps db db' = IsKeyed db → IsKept db db'

      pub Keeps-trans : (a b c : Db) → Keeps a b → Keeps b c → Keeps a c
      unfolding Keeps
      Keeps-trans a b c p q k = let first = p k in IsKept-trans a b c first (q first.keyed)

      pub Keeps-refl : (db : Db) → Keeps db db
      unfolding Keeps
      Keeps-refl db k = record { secrets = refl; keyed = k; same_keys = refl; balanced = refl }

      pub Allows-Keeps : (db db' : Db) → Allows db db' → Keeps db db'
      unfolding Allows Keeps
      Allows-Keeps db db' w k = (w k).0

      -- Marks on the operations are no secrets.
      pub operations-Keeps :
          (db : Db) (t : Operation → Bool) (f : Operation → Operation)
          → ((o : Operation) → ((f o).id ≡ o.id) × ((f o).processed_records ≡ o.processed_records))
          → Keeps db (record db { operations = update_where t f db.operations })
      unfolding Keeps balance count_dek_references
      operations-Keeps db t f same k = record {
        secrets = refl;
        keyed = record {
          variables = k.variables;
          variable_versions = k.variable_versions;
          items = k.items;
        };
        same_keys = refl;
        balanced = rw (processed-update operation.id t f same db.operations) refl;
      }

      pub stage-Keeps :
          (code : Text) (read db : Db) (m : Result (ℕ × Db)) (rest : Db → Turn)
          → Keeps read db
          → ((r : ℕ × Db) → m ≡ ok r → Keeps read r.1)
          → ((d : Db) → Keeps d (state (rest d)))
          → Keeps read (state (stage operation code db m rest))
      unfolding record_rotation_issue
      stage-Keeps code read db (err e) rest w p q =
          Keeps-trans read db _ w (operations-Keeps db _ _ (λ o. (refl, refl)))
      stage-Keeps code read db (ok (n, d)) rest w p q = elim (Bool-cases (n == 0)) [
        | inl e ↦ rw e (Keeps-trans read d (state (rest d)) (p (n, d) refl) (q d))
        | inr e ↦ rw e (p (n, d) refl)
      ]

      pub moved : (db : Db) {t t' : Turn} → t ≡ t' → Keeps db (state t) → Keeps db (state t')
      moved db e k = rw (← e) k
