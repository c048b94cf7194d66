-- ===== src/Staff/Requests.antt =====
-- Requests of admins and to admins.
use vibehouse_backend.Common.{ℕ}
use vibehouse_backend.Staff.{Payload}
use vibehouse_backend.Staff.Users.{CreateAdmin, UpdateProfile}
use vibehouse_backend.Staff.Login.{LoginRequest}

pub data StaffRequest : Type 0 where
  create_admin : CreateAdmin → Payload → StaffRequest
  deactivate remove : ℕ → Payload → StaffRequest
  update_profile : ℕ → UpdateProfile → Payload → StaffRequest
  login : LoginRequest → StaffRequest
  get_profile : ℕ → StaffRequest
  validate : Payload → StaffRequest
  -- a cached answer reaches the end of its 60 seconds
  expire : ℕ → StaffRequest
