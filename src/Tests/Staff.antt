-- ===== src/Tests/Staff.antt =====
-- Admin accounts, at a small hotel.
use vibehouse_backend.Common.{
  ◌+◌, ◌≡◌, ◌≢◌, refl, true, none, some, List, [], ◌∷◌, ◌==◌, find, arith,
}
use vibehouse_backend.Exec.{err, ok, unauthorized, forbidden}
use vibehouse_backend.Staff.Hierarchy.{owner, manager}
use vibehouse_backend.Staff.{Admin, Payload, Staff, StaffServices}
use vibehouse_backend.Staff.Users.{deactivate}
use vibehouse_backend.Staff.Login.{LoginRequest, login, validate}
use vibehouse_backend.Staff.Requests.{StaffRequest}
use vibehouse_backend.Staff.Server.{handle_staff, serve_staff}
use vibehouse_backend.Staff.Revoked.{deactivate_lem}
use vibehouse_backend.Staff.Owners.{deletes, handle_staff-owner}

abbrev services : StaffServices
services = record {
  uuid = λ n. n + 100;
  bcrypt_hash = λ n p. p + 1;
  bcrypt_compare = λ p h. p + 1 == h;
  get_up = λ n. true;
  set_up = λ n. true;
  del_up = λ n. true;
  sqs_up = λ m. true;
}

abbrev boss : Admin
boss = record {
  id = 1;
  email = 11;
  phone = none;
  password_hash = 6;
  role_id = 1;
  property_id = none;
  is_active = true;
}

abbrev clerk : Admin
clerk = record {
  id = 2;
  email = 12;
  phone = none;
  password_hash = 8;
  role_id = 2;
  property_id = some 1;
  is_active = true;
}

abbrev boss_token : Payload
boss_token = record { admin_id = 1; role = owner; property_id = none; permissions = 1 ∷ [] }

abbrev clerk_token : Payload
clerk_token = record { admin_id = 2; role = manager; property_id = some 1; permissions = 2 ∷ [] }

abbrev clerk_login : LoginRequest
clerk_login = record { email = 12; password = 7; role = manager }

abbrev office : Staff
office = record {
  roles =
      record { id = 1; name = owner; permissions = 1 ∷ []; is_active = true }
      ∷ record { id = 2; name = manager; permissions = 2 ∷ []; is_active = true }
      ∷ [];
  admins = boss ∷ clerk ∷ [];
  jwt = [];
  outbox = [];
  drawn = 0;
  redis_calls = 0;
}

-- The clerk's token is checked, the clerk is deactivated, tries to log in and comes back with the
-- old token.
abbrev afterwards : List StaffRequest
afterwards = StaffRequest.login clerk_login ∷ StaffRequest.validate clerk_token ∷ []

deactivate_lem_example :
    ((validate services clerk_token
        (serve_staff services (deactivate services 2 boss_token office).1 afterwards)).0
      ≡ err unauthorized)
    × ((login services clerk_login
          (serve_staff services (deactivate services 2 boss_token office).1 afterwards)).0
        ≢ ok clerk_token)
unfolding find
deactivate_lem_example =
    deactivate_lem services 2 boss_token office afterwards clerk_token clerk_login
      (λ n e. absurd (omega arith)) refl refl refl

handle_staff-owner_example :
    handle_staff services (StaffRequest.remove 1 clerk_token) office ≡ (err forbidden, office)
unfolding find
handle_staff-owner_example =
    handle_staff-owner services 1 office (deletes (λ e. absurd (omega arith))) refl refl refl
