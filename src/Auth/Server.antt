-- ===== src/Auth/Server.antt =====
-- Runs of requests about guest accounts.
use vibehouse_backend.Common.{ℕ, ◌+◌, List, [], ◌∷◌}
use vibehouse_backend.Exec.{ok, pure, ◌>>◌}
use vibehouse_backend.Auth.{Auth, AuthServices, Act}
use vibehouse_backend.Auth.Codes.{send_otp, forgot_password, verify_otp, reset_password}
use vibehouse_backend.Auth.Login.{signup, login, verify_two_fa, google_login, toggle_two_fa}
use vibehouse_backend.Auth.Requests.{AuthRequest}

abbrev pub done {κ} : {A : Type κ} → Act A → Act (Unit {0})
done m = do m; pure tt

unfoldable pub wait : ℕ → Act (Unit {0})
wait d s = (ok tt, record s { now = s.now + d })

module _ (env : AuthServices) where
  unfoldable pub handle_auth : AuthRequest → Act (Unit {0})
  handle_auth (AuthRequest.signup dto) = done (signup env dto)
  handle_auth (AuthRequest.login a p) = done (login env a p)
  handle_auth (AuthRequest.verify_two_fa a o) = done (verify_two_fa env a o)
  handle_auth (AuthRequest.toggle_two_fa g b) = toggle_two_fa g b
  handle_auth (AuthRequest.send_otp a) = send_otp env a
  handle_auth (AuthRequest.forgot_password a) = forgot_password env a
  handle_auth (AuthRequest.verify_otp a o) = done (verify_otp env a o)
  handle_auth (AuthRequest.reset_password a o p) = done (reset_password env a o p)
  handle_auth (AuthRequest.google_login u) = done (google_login env u)
  handle_auth (AuthRequest.wait d) = wait d

  unfoldable pub serve_auth : Auth → List AuthRequest → Auth
  serve_auth s [] = s
  serve_auth s (r ∷ rs) = serve_auth (handle_auth r s).1 rs
