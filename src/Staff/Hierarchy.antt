-- ===== src/Staff/Hierarchy.antt =====
-- Which role may create, edit and delete accounts of which (src/common/constants/role-hierarchy.ts).
use vibehouse_backend.Common.{ℕ, Bool, true, false, ◌||◌, List, [], ◌∷◌, ◌==◌, ◌≡◌, refl}

-- admin_roles.name; `other` is a role that the table of the hierarchy does not list.
pub data RoleName : Type 0 where
  owner manager reception housekeeping_lead maintenance_lead : RoleName
  other : ℕ → RoleName

abbrev pub role_eq : RoleName → RoleName → Bool
role_eq owner owner = true
role_eq manager manager = true
role_eq reception reception = true
role_eq housekeeping_lead housekeeping_lead = true
role_eq maintenance_lead maintenance_lead = true
role_eq (other a) (other b) = a == b
role_eq _ _ = false

-- ROLE_HIERARCHY[role] ?? []
abbrev pub role_hierarchy : RoleName → List RoleName
role_hierarchy owner = manager ∷ reception ∷ housekeeping_lead ∷ maintenance_lead ∷ []
role_hierarchy manager = reception ∷ housekeeping_lead ∷ maintenance_lead ∷ []
role_hierarchy _ = []

abbrev includes : List RoleName → RoleName → Bool
includes [] name = false
includes (r ∷ rs) name = role_eq r name || includes rs name

-- `allowedTargets.includes(name)`
unfoldable pub may_manage : RoleName → RoleName → Bool
may_manage actor name = includes (role_hierarchy actor) name

pub may_manage-owner : (a : RoleName) → may_manage a owner ≡ false
unfolding may_manage
may_manage-owner owner = refl
may_manage-owner manager = refl
may_manage-owner reception = refl
may_manage-owner housekeeping_lead = refl
may_manage-owner maintenance_lead = refl
may_manage-owner (other n) = refl
