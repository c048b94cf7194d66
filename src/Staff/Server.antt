-- ===== src/Staff/Server.antt =====
-- Runs of requests of admins and to admins.
use vibehouse_backend.Common.{ℕ, List, [], ◌∷◌, ◌==◌, delete_where}
use vibehouse_backend.Exec.{ok, pure, ◌>>◌}
use vibehouse_backend.Staff.{Staff, StaffServices, Act}
use vibehouse_backend.Staff.Users.{create_admin, deactivate, update_profile, remove}
use vibehouse_backend.Staff.Login.{login, get_profile, validate}
use vibehouse_backend.Staff.Requests.{StaffRequest}

abbrev pub done {κ} : {A : Type κ} → Act A → Act (Unit {0})
done m = do m; pure tt

unfoldable pub expire_jwt : ℕ → Act (Unit {0})
expire_jwt id s = (ok tt, record s { jwt = delete_where (λ e. e.0 == id) s.jwt })

module _ (env : StaffServices) where
  unfoldable pub handle_staff : StaffRequest → Act (Unit {0})
  handle_staff (StaffRequest.create_admin dto actor) = done (create_admin env dto actor)
  handle_staff (StaffRequest.deactivate id actor) = deactivate env id actor
  handle_staff (StaffRequest.remove id actor) = remove env id actor
  handle_staff (StaffRequest.update_profile id dto actor) = update_profile env id dto actor
  handle_staff (StaffRequest.login dto) = done (login env dto)
  handle_staff (StaffRequest.get_profile id) = done (get_profile env id)
  handle_staff (StaffRequest.validate payload) = done (validate env payload)
  handle_staff (StaffRequest.expire id) = expire_jwt id

  unfoldable pub serve_staff : Staff → List StaffRequest → Staff
  serve_staff s [] = s
  serve_staff s (r ∷ rs) = serve_staff (handle_staff r s).1 rs
