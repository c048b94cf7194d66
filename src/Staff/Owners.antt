-- ===== src/Staff/Owners.antt =====
-- Accounts of owners: no other admin edits or deletes one.
use vibehouse_backend.Common.{ℕ, ◌≡◌, ◌≢◌, refl, false, some, ◌==◌, arith}
use vibehouse_backend.Exec.{err, forbidden}
use vibehouse_backend.Staff.Hierarchy.{owner, may_manage, may_manage-owner}
use vibehouse_backend.Staff.{Admin, AdminRole, Payload, Staff, StaffServices, admin_of, role_of}
use vibehouse_backend.Staff.Users.{UpdateProfile, update_profile, remove}
use vibehouse_backend.Staff.Requests.{StaffRequest}
use vibehouse_backend.Staff.Server.{handle_staff}

-- The requests to edit or delete an account that another admin makes.
pub data Meddles : ℕ → StaffRequest → Type 0 where
  edits :
      {id : ℕ} {dto : UpdateProfile} {actor : Payload}
      → actor.admin_id ≢ id
      → Meddles id (StaffRequest.update_profile id dto actor)
  deletes :
      {id : ℕ} {actor : Payload} → actor.admin_id ≢ id → Meddles id (StaffRequest.remove id actor)

differ : {a b : ℕ} → a ≢ b → (a == b) ≡ false
differ h = ground arith

-- Whatever role the token of another admin names, its request to edit or to delete the account of
-- an owner is forbidden, and the accounts, the cached token checks and the audit messages are as
-- they were.
pub handle_staff-owner :
    (env : StaffServices) (id : ℕ) (s : Staff) {a : Admin} {role : AdminRole} {r : StaffRequest}
    → Meddles id r
    → admin_of id s ≡ some a
    → role_of a.role_id s ≡ some role
    → role.name ≡ owner
    → handle_staff env r s ≡ (err forbidden, s)
unfolding handle_staff update_profile remove
handle_staff-owner env id s {role = role} (edits {actor = actor} other) found joined top =
    let no : may_manage actor.role role.name ≡ false = rw top (may_manage-owner actor.role) in
    rw (found, joined, differ other, no) refl
handle_staff-owner env id s {role = role} (deletes {actor = actor} other) found joined top =
    let no : may_manage actor.role role.name ≡ false = rw top (may_manage-owner actor.role) in
    rw (differ other, found, joined, no) refl
