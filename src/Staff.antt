-- ===== src/Staff.antt =====
-- Admin accounts (src/admin/users/admin-users.service.ts, src/admin/auth/admin-auth.service.ts) and
-- the guards in front of every admin route (src/common/guards). The accounts and the cache of the
-- token check are a state of their own: no other modelled handler reads them. Passwords, hashes,
-- emails and permissions are only compared, so they are numbers.
pub mod Hierarchy
pub mod Users
pub mod Login
pub mod Requests
pub mod Server
pub mod LockedOut
pub mod Revoked
pub mod Owners
use vibehouse_backend.Common.{
  ℕ, suc, Bool, true, false, ◌&&◌, not, Option, none, some, List, [], ◌∷◌, ◌++◌, ◌==◌,
  if◌then◌else◌, find, delete_where,
}
use vibehouse_backend.Exec.{Exec, ok, gets, throw_if, ◌>>=◌, ◌>>◌, unique_violation}
use vibehouse_backend.World.{Message}
use vibehouse_backend.Staff.Hierarchy.{RoleName}

-- admin_roles
pub record AdminRole : Type 0 where
  pub id : ℕ
  pub name : RoleName
  pub permissions : List ℕ
  pub is_active : Bool

-- admin_users
pub record Admin : Type 0 where
  pub id : ℕ
  pub email : ℕ
  pub phone : Option ℕ
  pub password_hash : ℕ
  pub role_id : ℕ
  pub property_id : Option ℕ
  pub is_active : Bool

-- `AdminJwtPayload`: what a token says of its bearer.
pub record Payload : Type 0 where
  pub admin_id : ℕ
  pub role : RoleName
  pub property_id : Option ℕ
  pub permissions : List ℕ

pub record Staff : Type 0 where
  pub roles : List AdminRole
  pub admins : List Admin
  -- the cached answers to "is this admin active?"
  pub jwt : List (ℕ × Bool)
  pub outbox : List Message
  -- how many uuids have been drawn and passwords hashed, and how many calls Redis has had
  pub drawn : ℕ
  pub redis_calls : ℕ

-- What bcrypt, Redis, SQS and the uuid generator answer, by the number of the call where it varies.
pub record StaffServices : Type 0 where
  pub uuid : ℕ → ℕ
  pub bcrypt_hash : ℕ → ℕ → ℕ
  pub bcrypt_compare : ℕ → ℕ → Bool
  pub get_up : ℕ → Bool
  pub set_up : ℕ → Bool
  pub del_up : ℕ → Bool
  pub sqs_up : Message → Bool

abbrev pub Act {κ} : Type κ → Type κ
Act A = Exec Staff A

abbrev pub admin_of : ℕ → Staff → Option Admin
admin_of id s = find (λ a. a.id == id) s.admins

abbrev pub admin_by_email : ℕ → Staff → Option Admin
admin_by_email email s = find (λ a. a.email == email) s.admins

abbrev pub role_of : ℕ → Staff → Option AdminRole
role_of id s = find (λ r. r.id == id) s.roles

unfoldable pub set_admins : (List Admin → List Admin) → Act (Unit {0})
set_admins f s = (ok tt, record s { admins = f s.admins })

-- The id is the primary key, the email a unique column.
unfoldable pub insert_admin : Admin → Act (Unit {0})
unfolding ◌>>=◌
insert_admin a = do
  clash ← gets (λ s. find (λ b. b.id == a.id) s.admins)
  throw_if (elim clash [ none ↦ false | some b ↦ true ]) unique_violation
  set_admins λ rows. rows ++ a ∷ []

module _ (env : StaffServices) where
  unfoldable pub draw_id : Act ℕ
  draw_id s = (ok (env.uuid s.drawn), record s { drawn = suc s.drawn })

  unfoldable pub hash_password : ℕ → Act ℕ
  hash_password password s =
      (ok (env.bcrypt_hash s.drawn password), record s { drawn = suc s.drawn })

  unfoldable pub send_staff : Message → Act (Unit {0})
  send_staff m s =
      (ok tt, record s { outbox = if env.sqs_up m then s.outbox ++ m ∷ [] else s.outbox })

  -- `cacheService.get`, `set` and `del` of a key `jwt:admin:<id>`: a failure is logged and dropped.
  unfoldable pub jwt_get : ℕ → Act (Option (ℕ × Bool))
  jwt_get id s = (
    ok (if env.get_up s.redis_calls then find (λ e. e.0 == id) s.jwt else none),
    record s { redis_calls = suc s.redis_calls },
  )

  unfoldable pub jwt_set : ℕ → Bool → Act (Unit {0})
  jwt_set id active s = (
    ok tt,
    record s {
      jwt =
          if env.set_up s.redis_calls
          then (id, active) ∷ delete_where (λ e. e.0 == id) s.jwt
          else s.jwt;
      redis_calls = suc s.redis_calls;
    },
  )

  -- `invalidateAdminJwt`
  unfoldable pub invalidate_admin_jwt : ℕ → Act (Unit {0})
  invalidate_admin_jwt id s = (
    ok tt,
    record s {
      jwt = if env.del_up s.redis_calls then delete_where (λ e. e.0 == id) s.jwt else s.jwt;
      redis_calls = suc s.redis_calls;
    },
  )
