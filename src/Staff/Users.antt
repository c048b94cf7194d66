-- ===== src/Staff/Users.antt =====
-- Accounts: `create`, `deactivate`, `updateProfile`, `remove`.
use vibehouse_backend.Common.{
  ℕ, Bool, true, false, not, ◌&&◌, Option, none, some, ◌==◌, if◌then◌else◌, find, update_where,
  delete_where,
}
use vibehouse_backend.Exec.{
  pure, gets, if_found, or_throw, throw_if, ◌>>=◌, ◌>>◌, conflict, role_not_found, admin_not_found,
  forbidden, bad_request, unauthorized,
}
use vibehouse_backend.World.{
  admin, admin_create, admin_deactivate, admin_delete, self_profile_update, admin_profile_update,
  audit_log,
}
use vibehouse_backend.Staff.Hierarchy.{may_manage}
use vibehouse_backend.Staff.{
  Admin, AdminRole, Payload, Staff, StaffServices, Act, admin_of, admin_by_email, role_of,
  set_admins, insert_admin, draw_id, hash_password, send_staff, invalidate_admin_jwt,
}

pub record CreateAdmin : Type 0 where
  pub email : ℕ
  pub phone : Option ℕ
  pub password : ℕ
  pub role_id : ℕ
  pub property_id : Option ℕ

-- `none` is a field that the body leaves out; a phone may be given as the empty text.
pub record UpdateProfile : Type 0 where
  pub phone : Option (Option ℕ)
  pub email : Option ℕ
  pub current_password : Option ℕ
  pub new_password : Option ℕ

abbrev pub present {ℓ} : {A : Type ℓ} → Option A → Bool
present none = false
present (some a) = true

-- A column of the update: left alone where the value is absent.
abbrev pub kept_or {ℓ} : {A : Type ℓ} → Option A → A → A
kept_or none old = old
kept_or (some new) old = new

unfoldable pub profile_data : UpdateProfile → Option ℕ → Admin → Admin
profile_data dto hash a = record a {
  phone = kept_or dto.phone a.phone;
  email = kept_or dto.email a.email;
  password_hash = kept_or hash a.password_hash;
}

module _ (env : StaffServices) where
  unfoldable pub create_admin : CreateAdmin → Payload → Act ℕ
  unfolding ◌>>=◌
  create_admin dto actor = do
    existing ← gets (admin_by_email dto.email)
    throw_if (present existing) conflict
    role ← or_throw (← gets (role_of dto.role_id)) role_not_found
    throw_if (not role.is_active) role_not_found
    throw_if (not (may_manage actor.role role.name)) forbidden
    hash ← hash_password env dto.password
    id ← draw_id env
    insert_admin (record {
      id = id;
      email = dto.email;
      phone = dto.phone;
      password_hash = hash;
      role_id = dto.role_id;
      property_id = dto.property_id;
      is_active = true;
    })
    send_staff env (audit_log admin actor.admin_id admin_create id)
    pure id

  unfoldable pub deactivate : ℕ → Payload → Act (Unit {0})
  unfolding ◌>>=◌
  deactivate id actor = do
    or_throw (← gets (admin_of id)) admin_not_found
    set_admins (update_where (λ a. a.id == id) λ a. record a { is_active = false })
    send_staff env (audit_log admin actor.admin_id admin_deactivate id)
    invalidate_admin_jwt env id

  -- The role that a row joins; the foreign key makes sure that it is there.
  abbrev pub joined_role : Admin → Staff → Option AdminRole
  joined_role a s = role_of a.role_id s

  -- The hash of the new password. Whoever changes their own gives the old one.
  unfoldable pub change_password : (is_self : Bool) → UpdateProfile → Admin → Act (Option ℕ)
  unfolding ◌>>=◌
  change_password is_self dto target =
      if_found dto.new_password
        (λ new. do
          if is_self
              then (do
                old ← or_throw dto.current_password bad_request
                throw_if (not (env.bcrypt_compare old target.password_hash)) unauthorized)
              else pure tt
          hash ← hash_password env new
          pure (some hash))
        (pure none)

  unfoldable pub check_email : ℕ → Option ℕ → Act (Unit {0})
  unfolding ◌>>=◌
  check_email id email =
      if_found email
        (λ email. do
          clash ← gets (λ s. find (λ a. a.email == email && not (a.id == id)) s.admins)
          throw_if (present clash) conflict)
        (pure tt)

  unfoldable pub update_profile : ℕ → UpdateProfile → Payload → Act (Unit {0})
  unfolding check_email change_password ◌>>=◌
  update_profile id dto actor = do
    target ← or_throw (← gets (admin_of id)) admin_not_found
    role ← or_throw (← gets (joined_role target)) role_not_found
    let is_self = actor.admin_id == id
    throw_if (not is_self && not (may_manage actor.role role.name)) forbidden
    check_email id dto.email
    hash ← change_password is_self dto target
    set_admins (update_where (λ a. a.id == id) (profile_data dto hash))
    send_staff env (
        audit_log admin actor.admin_id
          (if is_self then self_profile_update else admin_profile_update) id)

  unfoldable pub remove : ℕ → Payload → Act (Unit {0})
  unfolding ◌>>=◌
  remove id actor = do
    throw_if (actor.admin_id == id) forbidden
    target ← or_throw (← gets (admin_of id)) admin_not_found
    role ← or_throw (← gets (joined_role target)) role_not_found
    throw_if (not (may_manage actor.role role.name)) forbidden
    send_staff env (audit_log admin actor.admin_id admin_delete id)
    set_admins (delete_where (λ a. a.id == id))
    invalidate_admin_jwt env id
