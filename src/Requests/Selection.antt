-- ===== src/Requests/Selection.antt =====
-- The requests that are previewed and applied together: how src/requests/mod.rs loads, authorizes
-- and validates them, and the fingerprint that ties an application to its preview.
pub mod Laws
pub mod Ids
use configdeck.Auth.Session.{AuthenticatedSession}
use configdeck.Crypto.Bytes.{be_bytes}
use configdeck.Errors.{
  Result, ok, err, ◌>>=◌, ◌>>◌, require, ok_or, forbidden, not_found, conflict, invalid_request,
}
use configdeck.Prelude.Space.{trim}
use configdeck.Prelude.{
  ℕ, zero, suc, ◌+◌, ◌^◌, Bool, true, false, not, ◌&&◌, ◌||◌, List, [], ◌∷◌, ◌++◌, Option, none,
  some, Text, codes, eq_text, lt_text, utf8, length, ◌==◌, ltb, if◌then◌else◌, filter, any, all,
  is_empty, map, is_some,
}
use configdeck.Requests.Rows.{
  WorkflowRequestRow, ItemRow, CurrentRow, Db, Action, add, update, delete, Lifecycle, active,
  deleted, items_of, is_ready, is_write, is_missing,
}
use configdeck.Requests.Workflow.{workflow_request}
use configdeck.Users.{allows, review_request}

abbrev pub max_items : ℕ
max_items = 50

-- `sort` followed by `dedup`: each text once, in order.
pub insert_unique : Text → List Text → List Text
insert_unique x [] = x ∷ []
insert_unique x (y ∷ ys) =
    let rest = insert_unique x ys in
    if eq_text x y then y ∷ ys else if lt_text x y then x ∷ y ∷ ys else y ∷ rest

pub sort_unique : List Text → List Text
unfolding insert_unique
sort_unique [] = []
sort_unique (x ∷ xs) = insert_unique x (sort_unique xs)

-- `is_uuid` stands for `Uuid::parse_str(id).is_ok()`.
unfoldable pub normalize_request_ids : (Text → Bool) → List Text → Result (List Text)
unfolding sort_unique
normalize_request_ids is_uuid request_ids =
    let unique = sort_unique (filter (λ id. not (is_empty id)) (map trim request_ids)) in
    if is_empty unique || ltb max_items (length unique)
    then err invalid_request
    else if any (λ id. not (is_uuid id)) unique
    then err invalid_request
    else ok unique

unfoldable pub load_workflow_requests : Db → List Text → Result (List WorkflowRequestRow)
load_workflow_requests db [] = ok []
load_workflow_requests db (id ∷ ids) = do
  request ← workflow_request db id
  requests ← load_workflow_requests db ids
  ok (request ∷ requests)

unfoldable pub load_workflow_items : Db → List Text → List ItemRow
load_workflow_items db [] = []
load_workflow_items db (id ∷ ids) = items_of db id ++ load_workflow_items db ids

unfoldable pub authorize_selection :
    AuthenticatedSession → List WorkflowRequestRow → Result (Unit {0})
authorize_selection session requests = do
  require (not (is_empty requests) && allows session.user.role review_request) forbidden
  require (all (λ r. eq_text r.organization_id session.user.organization_id) requests) not_found

abbrev is_selectable : Text → WorkflowRequestRow → Bool
is_selectable environment_id r =
    eq_text r.environment_id environment_id && is_ready r.status && is_some r.approved_at

-- The loop over the items, with the set of the keys seen so far.
unfoldable pub validate_items : List Text → List ItemRow → Result (Unit {0})
validate_items keys [] = ok tt
validate_items keys (item ∷ items) =
    let rest = validate_items (item.key ∷ keys) items in
    if any (eq_text item.key) keys || is_missing item then err conflict else rest

unfoldable pub validate_selection : List WorkflowRequestRow → List ItemRow → Result (Unit {0})
unfolding validate_items
validate_selection [] items = err invalid_request
validate_selection (r ∷ rs) items = do
  require (all (is_selectable r.environment_id) (r ∷ rs)) conflict
  require
      (not (is_empty items)
        && all (λ i. any (λ q. eq_text q.id i.change_request_id) (r ∷ rs)) items)
      conflict
  validate_items [] items

-- `digest_field`
abbrev digest_field : Text → List ℕ
digest_field value = be_bytes 8 (length value) ++ value

-- `i64::to_be_bytes` of a number that is not negative
abbrev digest_number : ℕ → List ℕ
digest_number n = be_bytes 8 n

-- `unwrap_or(-1).to_be_bytes()`
abbrev digest_option : Option ℕ → List ℕ
digest_option none = 255 ∷ 255 ∷ 255 ∷ 255 ∷ 255 ∷ 255 ∷ 255 ∷ 255 ∷ []
digest_option (some n) = be_bytes 8 n

-- `as_deref().unwrap_or("")`
abbrev or_empty : Option Text → Text
or_empty none = []
or_empty (some t) = t

abbrev action_text : Action → Text
action_text add = codes "ADD"
action_text update = codes "UPDATE"
action_text delete = codes "DELETE"

abbrev lifecycle_text : Lifecycle → Text
lifecycle_text active = codes "ACTIVE"
lifecycle_text deleted = codes "DELETED"

unfoldable pub digest_request : WorkflowRequestRow → List ℕ
digest_request r = digest_field (utf8 r.id) ++ digest_number r.revision

unfoldable pub digest_item : ItemRow → List ℕ
digest_item i =
    digest_field (utf8 i.change_request_id)
    ++ (digest_field (utf8 i.id)
        ++ (digest_field (action_text i.action)
            ++ (digest_field (utf8 i.key)
                ++ (digest_number i.item_revision
                    ++ (digest_option i.base_variable_version
                        ++ (digest_option i.proposed_dek_version
                            ++ (digest_field (utf8 (or_empty i.variable_id))
                                ++ (digest_field (utf8 i.proposed_visibility)
                                    ++ (digest_field (utf8 i.proposed_value_type)
                                        ++ (digest_field (utf8 (or_empty i.proposed_description))
                                            ++ (digest_field (utf8 (or_empty i.proposed_group_name))
                                                ++ (digest_field (utf8 (or_empty i.value_source))
                                                    ++ (digest_field
                                                          (or_empty i.encrypted_proposed_value)
                                                        ++ (digest_field
                                                            (or_empty i.proposed_value_nonce)
                                                            ++ digest_number
                                                            i.proposed_display_order))))))))))))))

unfoldable pub digest_variable : CurrentRow → List ℕ
digest_variable v =
    digest_field (utf8 v.id)
    ++ (digest_field (utf8 v.key)
        ++ (digest_field (lifecycle_text v.lifecycle_status)
            ++ (digest_field (utf8 v.visibility)
                ++ (digest_field (utf8 v.value_type)
                    ++ (digest_field (utf8 (or_empty v.description))
                        ++ (digest_field (utf8 (or_empty v.group_name))
                            ++ (digest_number v.display_order ++ digest_number v.version)))))))

concat_map {ℓ} : {A : Type ℓ} → (A → List ℕ) → List A → List ℕ
concat_map f [] = []
concat_map f (x ∷ xs) = f x ++ concat_map f xs

-- SHA-256 is a parameter.
unfoldable pub selection_fingerprint :
    (List ℕ → Text) → List WorkflowRequestRow → List ItemRow → List CurrentRow → Text
unfolding digest_request digest_item digest_variable concat_map
selection_fingerprint sha256 requests items current = sha256 (
    codes "configdeck-resulting-preview-v1"
    ++ (concat_map digest_request requests
        ++ (concat_map digest_item items ++ concat_map digest_variable current)))
