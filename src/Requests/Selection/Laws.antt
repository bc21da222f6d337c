-- ===== src/Requests/Selection/Laws.antt =====
-- What a valid selection is.
use configdeck.Errors.{ok}
use configdeck.Prelude.{
  ◌≡◌, ◌≢◌, ◌↔◌, refl, sym, true, false, List, [], ◌∷◌, Text, arith, eq_text, eq_text_iff, any, all,
  is_empty, All, Any, all_iff, any_iff, All-map, Any-map, is_some,
}
use mathlib.Core.Path.{subst}
use configdeck.Requests.Rows.{WorkflowRequestRow, ItemRow, is_missing, ready_to_apply}
use configdeck.Requests.Selection.{validate_selection, validate_items, is_selectable}

-- No key of the list occurs twice, and none is among `seen`.
abbrev pub IsFresh : List Text → List ItemRow → Type 0
IsFresh seen [] = Unit
IsFresh seen (i ∷ is) = All (λ k. i.key ≢ k) seen × IsFresh (i.key ∷ seen) is

any-eq_text : (k : Text) (seen : List Text) → (any (eq_text k) seen ≡ false) ↔ All (λ j. k ≢ j) seen
any-eq_text k [] = (λ h. tt, λ h. refl)
any-eq_text k (j ∷ js) = (
  λ h. (λ e. ground (arith, eq_text_iff k j), (any-eq_text k js).0 (ground arith)),
  λ h. ground (arith, eq_text_iff k j, h.0, (any-eq_text k js).1 h.1),
)

validate_items_iff :
    (seen : List Text) (items : List ItemRow)
    → (validate_items seen items ≡ ok tt)
      ↔ (IsFresh seen items × All (λ i. is_missing i ≡ false) items)
unfolding validate_items
validate_items_iff seen [] = (λ h. (tt, tt), λ h. refl)
validate_items_iff seen (i ∷ is) = (
  λ h.
      let new : any (eq_text i.key) seen ≡ false = ground arith in
      let there : is_missing i ≡ false = ground arith in
      let rest : validate_items (i.key ∷ seen) is ≡ ok tt = ground arith in
      let (fresh, values) = (validate_items_iff (i.key ∷ seen) is).0 rest in
      (((any-eq_text i.key seen).0 new, fresh), (there, values)),
  λ h.
      let new = (any-eq_text i.key seen).1 h.0.0 in
      let rest = (validate_items_iff (i.key ∷ seen) is).1 (h.0.1, h.1.1) in rw (new, h.1.0) rest,
)

-- The requests and items that may be previewed and applied together.
pub record IsSelection (requests : List WorkflowRequestRow) (items : List ItemRow) : Type 0 where
  pub environment_id : Text
  pub some_request : is_empty requests ≡ false
  pub ready :
      All
        (λ r.
          (r.environment_id ≡ environment_id)
          × (r.status ≡ ready_to_apply)
          × (is_some r.approved_at ≡ true))
        requests
  pub some_item : is_empty items ≡ false
  pub own : All (λ i. Any (λ r. r.id ≡ i.change_request_id) requests) items
  pub distinct : IsFresh [] items
  pub values : All (λ i. is_missing i ≡ false) items

is_selectable_iff :
    (e : Text) (r : WorkflowRequestRow)
    → (is_selectable e r ≡ true)
      ↔ ((r.environment_id ≡ e) × (r.status ≡ ready_to_apply) × (is_some r.approved_at ≡ true))
is_selectable_iff e r = (
  λ h. (ground (arith, eq_text_iff r.environment_id e), ground arith, ground arith),
  λ h. ground (arith, eq_text_iff r.environment_id e, h.0, h.1, h.2),
)

is_own_iff :
    (requests : List WorkflowRequestRow) (i : ItemRow)
    → (any (λ q. eq_text q.id i.change_request_id) requests ≡ true)
      ↔ Any (λ r. r.id ≡ i.change_request_id) requests
is_own_iff requests i = (
  λ h.
      Any-map _ _ (λ r. (eq_text_iff r.id i.change_request_id).0) requests
        ((any_iff _ requests).0 h),
  λ h.
      (any_iff _ requests).1
        (Any-map _ _ (λ r. (eq_text_iff r.id i.change_request_id).1) requests h),
)

pub validate_selection-IsSelection :
    (requests : List WorkflowRequestRow) (items : List ItemRow)
    → validate_selection requests items ≡ ok tt
    → IsSelection requests items
unfolding validate_selection
validate_selection-IsSelection [] items h = cc
validate_selection-IsSelection (r ∷ rs) items h =
    let ready : all (is_selectable r.environment_id) (r ∷ rs) ≡ true = ground arith in
    let own : all (λ i. any (λ q. eq_text q.id i.change_request_id) (r ∷ rs)) items ≡ true =
      ground arith in
    let checked : validate_items [] items ≡ ok tt = ground arith in
    let (distinct, values) = (validate_items_iff [] items).0 checked in
    record {
      environment_id = r.environment_id;
      some_request = refl;
      ready =
          All-map _ _ (λ q. (is_selectable_iff r.environment_id q).0) (r ∷ rs)
            ((all_iff _ (r ∷ rs)).0 ready);
      some_item = ground arith;
      own = All-map _ _ (λ i. (is_own_iff (r ∷ rs) i).0) items ((all_iff _ items).0 own);
      distinct = distinct;
      values = values;
    }

selection_valid :
    (requests : List WorkflowRequestRow) (items : List ItemRow)
    → IsSelection requests items
    → validate_selection requests items ≡ ok tt
unfolding validate_selection
selection_valid [] items s = absurd (ground (arith, s.some_request))
selection_valid (r ∷ rs) items s =
    let ready =
      (all_iff _ (r ∷ rs)).1
        (All-map _ _ (λ q. (is_selectable_iff s.environment_id q).1) (r ∷ rs) s.ready) in
    let own = (all_iff _ items).1 (All-map _ _ (λ i. (is_own_iff (r ∷ rs) i).1) items s.own) in
    let checked = (validate_items_iff [] items).1 (s.distinct, s.values) in
    let same = subst (λ e. all (is_selectable e) (r ∷ rs) ≡ true) (sym s.ready.0.0) ready in
    rw (same, s.some_item, own) checked

-- `validate_selection` passes exactly the selections: at least one request and one item, all
-- requests approved and ready in one environment, each item of one of the requests, no key in two
-- items, and a value for each addition and update.
pub validate_selection_iff :
    (requests : List WorkflowRequestRow) (items : List ItemRow)
    → (validate_selection requests items ≡ ok tt) ↔ IsSelection requests items
validate_selection_iff requests items =
    (validate_selection-IsSelection requests items, selection_valid requests items)
