-- ===== src/Users/Laws.antt =====
-- What roles may do, and how they are stored.
use configdeck.Prelude.{ℕ, ◌≤◌, ◌≡◌, ◌↔◌, true, some, Text, arith, eq_text_iff, codes}
use configdeck.Users.Roles.{
  Role, contributor, operator, administrator, Capability, as_str, from_str, allows,
}

-- The place of a role in the hierarchy.
abbrev rank : Role → ℕ
rank contributor = 0
rank operator = 1
rank administrator = 2

-- A role may do all that a role below it may do.
pub allows_mono :
    (r s : Role) (c : Capability) → rank r ≤ rank s → allows r c ≡ true → allows s c ≡ true
unfolding allows
allows_mono r s c h a = ground arith

-- A text parses to a role exactly if it is the text under which that role is stored.
pub from_str_iff : (t : Text) (r : Role) → (from_str t ≡ some r) ↔ (t ≡ as_str r)
unfolding from_str as_str
from_str_iff t contributor = ground (
  arith,
  eq_text_iff t (codes "CONTRIBUTOR"),
  eq_text_iff t (codes "OPERATOR"),
  eq_text_iff t (codes "ADMINISTRATOR"),
)
from_str_iff t r = ground (
  arith,
  eq_text_iff t (codes "CONTRIBUTOR"),
  eq_text_iff t (codes "OPERATOR"),
  eq_text_iff t (codes "ADMINISTRATOR"),
)
