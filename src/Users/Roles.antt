-- ===== src/Users/Roles.antt =====
-- `Role`, `Capability` and `can_access_service` of src/users/mod.rs.
use configdeck.Prelude.{
  Bool, true, false, not, List, Option, none, some, Text, codes, eq_text, any, if◌then◌else◌, ◌&&◌,
}

pub data Role : Type 0 where
  contributor operator administrator : Role

pub data Capability : Type 0 where
  read_assigned_service read_public_value read_restricted_value : Capability
  create_change_request fulfill_value review_request apply_request : Capability
  export_environment view_audit manage_users manage_metadata manage_system : Capability
  create_backup create_restore_intent rotate_keys : Capability

unfoldable pub as_str : Role → Text
as_str contributor = codes "CONTRIBUTOR"
as_str operator = codes "OPERATOR"
as_str administrator = codes "ADMINISTRATOR"

-- `none` is `RoleParseError`.
unfoldable pub from_str : Text → Option Role
unfolding eq_text
from_str value =
    if eq_text value (codes "CONTRIBUTOR")
    then some contributor
    else if eq_text value (codes "OPERATOR")
    then some operator
    else if eq_text value (codes "ADMINISTRATOR")
    then some administrator
    else none

-- the `matches!` of `Self::Contributor`
is_contributor_capability : Capability → Bool
is_contributor_capability read_assigned_service = true
is_contributor_capability read_public_value = true
is_contributor_capability create_change_request = true
is_contributor_capability _ = false

-- the `matches!` that `Self::Operator` negates
is_administrator_capability : Capability → Bool
is_administrator_capability manage_users = true
is_administrator_capability manage_metadata = true
is_administrator_capability manage_system = true
is_administrator_capability create_backup = true
is_administrator_capability create_restore_intent = true
is_administrator_capability rotate_keys = true
is_administrator_capability _ = false

unfoldable pub allows : Role → Capability → Bool
unfolding is_contributor_capability is_administrator_capability
allows contributor c = is_contributor_capability c
allows operator c = not (is_administrator_capability c)
allows administrator c = true

unfoldable pub requires_totp : Role → Bool
requires_totp contributor = false
requires_totp _ = true

-- A row of the table user_service_access.
pub record Grant : Type 0 where
  pub user_id : Text
  pub service_id : Text

unfoldable pub can_access_service : List Grant → Text → Role → Text → Bool
can_access_service grants user_id contributor service_id =
    any (λ g. eq_text g.user_id user_id && eq_text g.service_id service_id) grants
can_access_service grants user_id _ service_id = true
