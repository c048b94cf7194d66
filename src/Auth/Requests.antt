-- ===== src/Auth/Requests.antt =====
-- The requests about guest accounts, one constructor for each modelled handler, and the clock.
use vibehouse_backend.Common.{ℕ, Bool}
use vibehouse_backend.Auth.Login.{Signup, GoogleUser}

pub data AuthRequest : Type 0 where
  signup : Signup → AuthRequest
  login : (address password : ℕ) → AuthRequest
  verify_two_fa : (address otp : ℕ) → AuthRequest
  toggle_two_fa : (guest : ℕ) → Bool → AuthRequest
  send_otp forgot_password : (address : ℕ) → AuthRequest
  verify_otp : (address otp : ℕ) → AuthRequest
  reset_password : (address otp password : ℕ) → AuthRequest
  google_login : GoogleUser → AuthRequest
  -- time goes by
  wait : (milliseconds : ℕ) → AuthRequest
