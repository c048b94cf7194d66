-- ===== src/Staff/Login.antt =====
-- Tokens: `login`, `getProfile`, the token check `validate` and the permission guard.
use vibehouse_backend.Common.{
  ℕ, Bool, false, not, ◌&&◌, ◌||◌, Option, none, some, List, [], ◌∷◌, ◌==◌, find, every,
}
use vibehouse_backend.Exec.{
  pure, gets, if_found, or_throw, throw_if, ◌>>=◌, ◌>>◌, forbidden, unauthorized,
}
use vibehouse_backend.Staff.Hierarchy.{RoleName, role_eq}
use vibehouse_backend.Staff.{
  Admin, Payload, StaffServices, Act, admin_of, role_of, jwt_get, jwt_set,
}

pub record LoginRequest : Type 0 where
  pub email : ℕ
  pub password : ℕ
  pub role : RoleName

abbrev pub is_live : Option Admin → Bool
is_live none = false
is_live (some a) = a.is_active

abbrev pub has : List ℕ → ℕ → Bool
has [] p = false
has (q ∷ qs) p = q == p || has qs p

-- `canActivate`, for the permissions that the route requires.
unfoldable pub can_activate : List ℕ → Payload → Act (Unit {0})
can_activate required user = throw_if (not (every (has user.permissions) required)) forbidden

module _ (env : StaffServices) where
  -- The payload of the token that is signed; the login time and the log row are not modelled.
  unfoldable pub login : LoginRequest → Act Payload
  unfolding ◌>>=◌
  login dto = do
    a ←
        or_throw (← gets (λ s. find (λ a. a.email == dto.email && a.is_active) s.admins))
          unauthorized
    role ← or_throw (← gets (role_of a.role_id)) unauthorized
    throw_if (not role.is_active) unauthorized
    throw_if (not (role_eq role.name dto.role)) forbidden
    throw_if (not (env.bcrypt_compare dto.password a.password_hash)) unauthorized
    pure (record {
      admin_id = a.id;
      role = role.name;
      property_id = a.property_id;
      permissions = role.permissions;
    })

  unfoldable pub get_profile : ℕ → Act Admin
  unfolding ◌>>=◌
  get_profile id = do
    a ← or_throw (← gets (admin_of id)) unauthorized
    throw_if (not a.is_active) unauthorized
    pure a

  -- `AdminJwtStrategy.validate`, for a token whose signature and expiry hold.
  unfoldable pub validate : Payload → Act Payload
  unfolding ◌>>=◌
  validate payload = do
    cached ← jwt_get env payload.admin_id
    if_found cached (λ e. do throw_if (not e.1) unauthorized; pure payload)
        (do
          a ← gets (admin_of payload.admin_id)
          jwt_set env payload.admin_id (is_live a)
          throw_if (not (is_live a)) unauthorized
          pure payload)
