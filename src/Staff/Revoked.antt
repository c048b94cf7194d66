-- ===== src/Staff/Revoked.antt =====
-- What `deactivate` promises: the admin is rejected at once, and for good.
use vibehouse_backend.Common.{
  ℕ, ◌≡◌, ◌≢◌, refl, ◌∙◌, Bool, true, false, ◌&&◌, some, List, [], ◌∷◌, ◌==◌, ==-eq, find,
  update_where, delete_where, All, find-All, find-true, Bool-cases, Option-cases, inl, inr, arith,
}
use vibehouse_backend.Exec.{ok, err, unauthorized}
use vibehouse_backend.Staff.{
  Admin, Payload, Staff, StaffServices, admin_of, set_admins, send_staff, jwt_get, jwt_set,
  invalidate_admin_jwt,
}
use vibehouse_backend.Staff.Users.{deactivate}
use vibehouse_backend.Staff.Login.{LoginRequest, login, validate}
use vibehouse_backend.Staff.Requests.{StaffRequest}
use vibehouse_backend.Staff.Server.{serve_staff}
use vibehouse_backend.Staff.LockedOut.{IsOut, SaysNo, LockedOut, serve_staff-LockedOut, is_live_out}

module _ (x : ℕ) where
  IsOut-deactivated :
      (rows : List Admin)
      → All (IsOut x) (update_where (λ a. a.id == x) (λ a. record a { is_active = false }) rows)
  unfolding update_where
  IsOut-deactivated [] = tt
  IsOut-deactivated (a ∷ rows) = elim (Bool-cases (a.id == x)) [
    | inl hit ↦ rw hit (λ same. refl, IsOut-deactivated rows)
    | inr miss ↦ rw miss (λ same. absurd (ground arith), IsOut-deactivated rows)
  ]

  SaysNo-deleted : (jwt : List (ℕ × Bool)) → All (SaysNo x) (delete_where (λ e. e.0 == x) jwt)
  unfolding delete_where
  SaysNo-deleted [] = tt
  SaysNo-deleted (e ∷ jwt) = elim (Bool-cases (e.0 == x)) [
    | inl hit ↦ rw hit (SaysNo-deleted jwt)
    | inr miss ↦ rw miss (λ same. absurd (ground arith), SaysNo-deleted jwt)
  ]

module _ (env : StaffServices) (x : ℕ) where
  deactivate-LockedOut :
      (actor : Payload) (s : Staff) {a : Admin}
      → admin_of x s ≡ some a
      → env.del_up s.redis_calls ≡ true
      → LockedOut x (deactivate env x actor s).1
  unfolding deactivate set_admins send_staff invalidate_admin_jwt
  deactivate-LockedOut actor s found up =
      rw (found, up)
        (record { rows = IsOut-deactivated x s.admins; answers = SaysNo-deleted x s.jwt })

  validate-LockedOut :
      (payload : Payload) (s : Staff)
      → LockedOut x s
      → payload.admin_id ≡ x
      → (validate env payload s).0 ≡ err unauthorized
  unfolding validate jwt_get jwt_set
  validate-LockedOut payload s h same =
      let no_row = is_live_out env x s payload.admin_id h same in
      elim (Bool-cases (env.get_up s.redis_calls)) [
        | inl up ↦ elim (Option-cases (find (λ e. e.0 == payload.admin_id) s.jwt)) [
          | inl missing ↦ rw (up, missing, no_row) refl
          | inr (e, found) ↦
              let own =
                ==-eq e.0 payload.admin_id (find-true (λ e. e.0 == payload.admin_id) s.jwt found) in
              let no = find-All (SaysNo x) _ s.jwt found h.answers (own ∙ same) in
              rw (up, found, no) refl
        ]
        | inr down ↦ rw (down, no_row) refl
      ]

  abbrev test : LoginRequest → Admin → Bool
  test dto a = a.email == dto.email && a.is_active

  login-LockedOut :
      (dto : LoginRequest) (s : Staff) {p : Payload}
      → LockedOut x s
      → (login env dto s).0 ≡ ok p
      → p.admin_id ≢ x
  unfolding login
  login-LockedOut dto s h entered same = elim (Option-cases (find (test dto) s.admins)) [
    | inl missing ↦ ground arith
    | inr (a, found) ↦
        let live = find-true (test dto) s.admins found in
        let out = find-All (IsOut x) (test dto) s.admins found h.rows in ground (arith, out)
  ]

  -- Once an admin has been deactivated, with Redis taking the deletion of the cached token check,
  -- every later token check of a token of that admin is refused and no later login yields one,
  -- whatever requests come in between, whichever of them throw, and whether or not Redis answers
  -- them. It is assumed that no uuid that is drawn is the admin's id.
  pub deactivate_lem :
      (actor : Payload) (s : Staff) {a : Admin} (rs : List StaffRequest) (payload : Payload)
      (dto : LoginRequest)
      → ((n : ℕ) → env.uuid n ≢ x)
      → admin_of x s ≡ some a
      → env.del_up s.redis_calls ≡ true
      → payload.admin_id ≡ x
      → ((validate env payload (serve_staff env (deactivate env x actor s).1 rs)).0
          ≡ err unauthorized)
        × ((login env dto (serve_staff env (deactivate env x actor s).1 rs)).0 ≢ ok payload)
  deactivate_lem actor s rs payload dto fresh found up same =
      let s' = serve_staff env (deactivate env x actor s).1 rs in
      let out = serve_staff-LockedOut env x fresh _ rs (deactivate-LockedOut actor s found up) in
      (validate-LockedOut payload s' out same, λ entered. login-LockedOut dto s' out entered same)
