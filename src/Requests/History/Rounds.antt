-- ===== src/Requests/History/Rounds.antt =====
-- How one row of change_requests may follow another.
use configdeck.Prelude.Tables.{put, Table}
use configdeck.Prelude.{
  ◌+◌, ◌≤◌, ◌≡◌, inl, inr, refl, ap, ◌∙◌, true, false, some, Text, arith, Bool-cases, eq_text,
  eq_text_iff,
}
use configdeck.Requests.Rows.{RequestRow, is_open, is_ready}
use configdeck.Requests.Schema.{is_consistent}
use mathlib.Core.Path.{subst}

-- The revision never falls; while it stays, only the preview changes; and a request that is
-- applied or rejected never changes.
pub record Follows (r r' : RequestRow) : Type 0 where
  pub grows : r.revision ≤ r'.revision
  pub same :
      r.revision ≡ r'.revision → r' ≡ record r { preview_fingerprint = r'.preview_fingerprint }
  pub final : is_open r.status ≡ false → r' ≡ r

pub Follows-refl : (r : RequestRow) → Follows r r
Follows-refl r = record { grows = omega arith; same = λ e. refl; final = λ e. refl }

pub Follows-trans : (a b c : RequestRow) → Follows a b → Follows b c → Follows a c
Follows-trans a b c f g = record {
  grows = omega (arith, f.grows, g.grows);
  same = λ e.
      g.same (omega (arith, f.grows, g.grows))
      ∙ ap {A = RequestRow} {B = RequestRow}
          (λ q. record q { preview_fingerprint = c.preview_fingerprint })
          (f.same (omega (arith, f.grows, g.grows)));
  final = λ e. g.final (rw (f.final e) e) ∙ f.final e;
}

-- A row that is written with a new revision over a request that is still open.
pub Follows-next :
    (r r' : RequestRow) → r'.revision ≡ r.revision + 1 → is_open r.status ≡ true → Follows r r'
Follows-next r r' e o = record {
  grows = omega (arith, e);
  same = λ h. absurd (omega (arith, e, h));
  final = λ h. absurd (ground (arith, o, h));
}

-- A row whose preview alone is written, while it is ready.
pub Follows-preview :
    (r : RequestRow) (fingerprint : Text)
    → is_ready r.status ≡ true
    → Follows r (record r { preview_fingerprint = some fingerprint })
Follows-preview r fingerprint o = record {
  grows = omega arith;
  same = λ h. refl;
  final = λ h. absurd (ground (arith, o, h));
}

-- The request `id` is still there, in a row that follows the one before.
abbrev pub Kept : Text → RequestRow → Table RequestRow → Type 0
Kept id r rows = (r' : RequestRow) × (rows id ≡ some r') × Follows r r'

pub Kept-put :
    (rows : Table RequestRow) (j id : Text) (r before after : RequestRow)
    → rows j ≡ some before
    → rows id ≡ some r
    → Follows before after
    → Kept id r (put rows j after)
Kept-put rows j id r before after p q f = elim (Bool-cases (eq_text j id)) [
  | inl e ↦
      let same : before ≡ r = ground (arith, eq_text_iff j id) in
      (after, rw e, subst (λ x. Follows x after) same f)
  | inr e ↦ (r, rw e q, Follows-refl r)
]

-- Each row satisfies the CHECKs.
abbrev pub IsConsistent : Table RequestRow → Type 0
IsConsistent rows = (id : Text) (r : RequestRow) → rows id ≡ some r → is_consistent r ≡ true

pub IsConsistent-put :
    (rows : Table RequestRow) (j : Text) (after : RequestRow)
    → is_consistent after ≡ true
    → IsConsistent rows
    → IsConsistent (put rows j after)
IsConsistent-put rows j after c h id r e = elim (Bool-cases (eq_text j id)) [
  | inl t ↦ ground (arith, c)
  | inr t ↦ h id r (ground arith)
]
