-- ===== src/Tests/Roles.antt =====
-- Roles at work.
use configdeck.Prelude.{◌≡◌, ◌↔◌, refl, true, false, none, some, codes}
use configdeck.Users.Laws.{from_str_iff}
use configdeck.Users.{operator, apply_request, manage_users, as_str, from_str, allows}

operator_applies : allows operator apply_request ≡ true
unfolding allows
operator_applies = refl

operator_manages : allows operator manage_users ≡ false
unfolding allows
operator_manages = refl

lower_case : from_str (codes "operator") ≡ none
unfolding from_str
lower_case = refl

from_str_iff_example :
    (from_str (codes "OPERATOR") ≡ some operator) ↔ (codes "OPERATOR" ≡ as_str operator)
from_str_iff_example = from_str_iff (codes "OPERATOR") operator
