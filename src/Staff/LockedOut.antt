-- ===== src/Staff/LockedOut.antt =====
-- A deactivated admin: `deactivate`, and every request after it.
use vibehouse_backend.Common.{
  ℕ, ◌≡◌, ◌≢◌, refl, ◌∙◌, Bool, false, Option, List, [], ◌∷◌, ◌++◌, ◌==◌, ==-eq, update_where,
  delete_where, All, find-All, find-true, update_where-All, delete_where-All, append-All,
  Bool-cases, Option-cases, inl, inr,
}
use vibehouse_backend.Exec.{gets, ◌>>=◌}
use vibehouse_backend.Exec.Keeps.{Keeps, keeps_rules}
use vibehouse_backend.World.{Message}
use vibehouse_backend.Staff.{
  Admin, Payload, Staff, StaffServices, Act, admin_of, set_admins, insert_admin, draw_id,
  hash_password, send_staff, jwt_get, jwt_set, invalidate_admin_jwt,
}
use vibehouse_backend.Staff.Users.{
  CreateAdmin, UpdateProfile, profile_data, create_admin, deactivate, update_profile, remove,
}
use vibehouse_backend.Staff.Login.{LoginRequest, is_live, login, get_profile, validate}
use vibehouse_backend.Staff.Requests.{StaffRequest}
use vibehouse_backend.Staff.Server.{handle_staff, serve_staff, expire_jwt}

module _ (x : ℕ) where
  abbrev pub IsOut : Admin → Type 0
  IsOut a = a.id ≡ x → a.is_active ≡ false

  abbrev pub SaysNo : ℕ × Bool → Type 0
  SaysNo e = e.0 ≡ x → e.1 ≡ false

  -- No account with the id is active, and no cached answer says that it is.
  pub record LockedOut (s : Staff) : Type 0 where
    pub rows : All IsOut s.admins
    pub answers : All SaysNo s.jwt

module _ (env : StaffServices) (x : ℕ) where
  draw_out :
      {A : Type 0} (f : ℕ → Act A)
      → ((n : ℕ) → Keeps (LockedOut x) (f (env.uuid n)))
      → Keeps (LockedOut x) (draw_id env >>= f)
  unfolding ◌>>=◌ draw_id
  draw_out f kf = record {
    after = λ s h. (kf s.drawn).after _ (record { rows = h.rows; answers = h.answers });
  }

  hash_out : (p : ℕ) → Keeps (LockedOut x) (hash_password env p)
  unfolding hash_password
  hash_out p = record { after = λ s h. record { rows = h.rows; answers = h.answers } }

  send_out : (m : Message) → Keeps (LockedOut x) (send_staff env m)
  unfolding send_staff
  send_out m = record { after = λ s h. record { rows = h.rows; answers = h.answers } }

  set_out :
      (f : List Admin → List Admin)
      → ((rows : List Admin) → All (IsOut x) rows → All (IsOut x) (f rows))
      → Keeps (LockedOut x) (set_admins f)
  unfolding set_admins
  set_out f keep = record {
    after = λ s h. record { rows = keep s.admins h.rows; answers = h.answers };
  }

  del_out : (id : ℕ) → Keeps (LockedOut x) (invalidate_admin_jwt env id)
  unfolding invalidate_admin_jwt
  del_out id = record {
    after = λ s h. record {
      rows = h.rows;
      answers = elim (Bool-cases (env.del_up s.redis_calls)) [
        | inl up ↦ rw up (delete_where-All (SaysNo x) (λ e. e.0 == id) s.jwt h.answers)
        | inr down ↦ rw down h.answers
      ];
    };
  }

  expire_out : (id : ℕ) → Keeps (LockedOut x) (expire_jwt id)
  unfolding expire_jwt
  expire_out id = record {
    after = λ s h. record {
      rows = h.rows;
      answers = delete_where-All (SaysNo x) (λ e. e.0 == id) s.jwt h.answers;
    };
  }

  deactivate_out :
      (id : ℕ)
      → Keeps
          (LockedOut x)
          (set_admins (update_where (λ a. a.id == id) λ a. record a { is_active = false }))
  deactivate_out id =
      set_out _ λ rows h. update_where-All (IsOut x) _ _ rows (λ a hit out same. refl) h

  profile_out :
      (id : ℕ) (dto : UpdateProfile) (hash : Option ℕ)
      → Keeps (LockedOut x) (set_admins (update_where (λ a. a.id == id) (profile_data dto hash)))
  unfolding profile_data
  profile_out id dto hash =
      set_out _ λ rows h. update_where-All (IsOut x) _ _ rows (λ a hit out. out) h

  delete_out : (id : ℕ) → Keeps (LockedOut x) (set_admins (delete_where λ a. a.id == id))
  delete_out id = set_out _ λ rows h. delete_where-All (IsOut x) _ rows h

  append-IsOut :
      (a : Admin)
      → a.id ≢ x
      → (rows : List Admin) → All (IsOut x) rows
      → All (IsOut x) (rows ++ a ∷ [])
  append-IsOut a new rows h = append-All (IsOut x) rows (a ∷ []) h (λ same. absurd (new same), tt)

  insert_out : (a : Admin) → a.id ≢ x → Keeps (LockedOut x) (insert_admin a)
  unfolding insert_admin
  insert_out a new = search (keeps_rules, set_out, append-IsOut a new)

  get_jwt_out : (id : ℕ) → Keeps (LockedOut x) (jwt_get env id)
  unfolding jwt_get
  get_jwt_out id = record { after = λ s h. record { rows = h.rows; answers = h.answers } }

  -- What is cached for the id is that it is not active.
  pub is_live_out : (s : Staff) (id : ℕ) → LockedOut x s → id ≡ x → is_live (admin_of id s) ≡ false
  is_live_out s id h same = elim (Option-cases (admin_of id s)) [
    | inl missing ↦ rw missing refl
    | inr (a, found) ↦
        let own = ==-eq a.id id (find-true (λ a. a.id == id) s.admins found) in
        rw found (find-All (IsOut x) (λ a. a.id == id) s.admins found h.rows (own ∙ same))
  ]

  look_out :
      {B : Type 0} (id : ℕ) (f : Option Admin → Unit {0} → Act B)
      → ((a : Option Admin) (u : Unit {0}) → Keeps (LockedOut x) (f a u))
      → Keeps (LockedOut x) (gets (admin_of id) >>= λ a. jwt_set env id (is_live a) >>= f a)
  unfolding ◌>>=◌ jwt_set
  look_out id f kf = record {
    after = λ s h. (kf (admin_of id s) tt).after _ (record {
      rows = h.rows;
      answers = elim (Bool-cases (env.set_up s.redis_calls)) [
        | inl up ↦
            rw up (is_live_out s id h, delete_where-All (SaysNo x) (λ e. e.0 == id) s.jwt h.answers)
        | inr down ↦ rw down h.answers
      ];
    });
  }

  ruleset out_rules = (
    keeps_rules, hash_out, send_out, del_out, expire_out, deactivate_out, profile_out, delete_out,
  )

  module _ (fresh : (n : ℕ) → env.uuid n ≢ x) where
    create_out :
        (dto : CreateAdmin) (actor : Payload) → Keeps (LockedOut x) (create_admin env dto actor)
    unfolding create_admin
    create_out dto actor = search (draw_out, out_rules, insert_out, fresh) depth 40

    update_out :
        (id : ℕ) (dto : UpdateProfile) (actor : Payload)
        → Keeps (LockedOut x) (update_profile env id dto actor)
    unfolding update_profile
    update_out id dto actor = search out_rules depth 40

    remove_out : (id : ℕ) (actor : Payload) → Keeps (LockedOut x) (remove env id actor)
    unfolding remove
    remove_out id actor = search out_rules depth 40

    deactivated_out : (id : ℕ) (actor : Payload) → Keeps (LockedOut x) (deactivate env id actor)
    unfolding deactivate
    deactivated_out id actor = search out_rules depth 40

    login_out : (dto : LoginRequest) → Keeps (LockedOut x) (login env dto)
    unfolding login
    login_out dto = search out_rules depth 40

    get_out : (id : ℕ) → Keeps (LockedOut x) (get_profile env id)
    unfolding get_profile
    get_out id = search out_rules depth 40

    validate_out : (payload : Payload) → Keeps (LockedOut x) (validate env payload)
    unfolding validate
    validate_out payload = search (look_out, get_jwt_out, out_rules) depth 40

    handle_staff-LockedOut : (r : StaffRequest) → Keeps (LockedOut x) (handle_staff env r)
    unfolding handle_staff
    handle_staff-LockedOut (StaffRequest.create_admin dto actor) = search (keeps_rules, create_out)
    handle_staff-LockedOut (StaffRequest.deactivate id actor) = deactivated_out id actor
    handle_staff-LockedOut (StaffRequest.remove id actor) = remove_out id actor
    handle_staff-LockedOut (StaffRequest.update_profile id dto actor) = update_out id dto actor
    handle_staff-LockedOut (StaffRequest.login dto) = search (keeps_rules, login_out)
    handle_staff-LockedOut (StaffRequest.get_profile id) = search (keeps_rules, get_out)
    handle_staff-LockedOut (StaffRequest.validate payload) = search (keeps_rules, validate_out)
    handle_staff-LockedOut (StaffRequest.expire id) = expire_out id

    pub serve_staff-LockedOut :
        (s : Staff) (rs : List StaffRequest) → LockedOut x s → LockedOut x (serve_staff env s rs)
    unfolding serve_staff
    serve_staff-LockedOut s [] h = h
    serve_staff-LockedOut s (r ∷ rs) h =
        serve_staff-LockedOut (handle_staff env r s).1 rs ((handle_staff-LockedOut r).after s h)
