-- ===== src/Auth/Gaps.antt =====
-- A list of codes of which the unused ones of one guest and purpose are a minute apart.
use vibehouse_backend.Common.{
  ℕ, ◌+◌, ◌*◌, ◌<◌, ◌≤◌, ◌≡◌, refl, ◌⊎◌, inl, inr, Bool, true, List, [], ◌∷◌, ◌++◌, length, where_,
  update_where, delete_where, All, imp-All, append-All, update_where-All, delete_where-All,
  Bool-cases, arith,
}
use vibehouse_backend.Auth.{OtpPurpose, Otp}
use vibehouse_backend.Auth.Codes.{is_unused, is_live}

module _ (guest : ℕ) (purpose : OtpPurpose) where
  abbrev p : Otp → Bool
  p = is_unused guest purpose

  -- The code `x` came more than a minute after the time.
  abbrev pub After : ℕ → Otp → Type 0
  After t x = is_unused guest purpose x ≡ true → t + 60000 < x.created_at

  abbrev pub Gaps : ℕ → List Otp → Type 0
  Gaps now [] = Unit
  Gaps now (o ∷ os) =
      (is_unused guest purpose o ≡ true
        → (o.created_at ≤ now)
          × (o.expires_at ≡ o.created_at + 600000)
          × All (After o.created_at) os)
      × Gaps now os

  pub Gaps-append :
      (now : ℕ) (new : Otp) (os : List Otp)
      → new.created_at ≡ now
      → new.expires_at ≡ now + 600000
      → All (λ x. p x ≡ true → p new ≡ true → x.created_at + 60000 < now) os
      → Gaps now os
      → Gaps now (os ++ new ∷ [])
  Gaps-append now new [] c e far h = ((λ own. (ground arith, ground arith, tt)), tt)
  Gaps-append now new (o ∷ os) c e far h = (
    (λ own.
        let (old, ends, rest) = h.0 own in
        (
          old,
          ends,
          append-All (After o.created_at) os (new ∷ []) rest
              ((λ mine. let f = far.0 own mine in ground arith), tt),
        )),
    Gaps-append now new os c e far.1 h.1,
  )

  pub Gaps-update :
      (q : Otp → Bool) (f : Otp → Otp) (now : ℕ) (os : List Otp)
      → ((x : Otp) → (f x).created_at ≡ x.created_at)
      → ((x : Otp) → (f x).expires_at ≡ x.expires_at)
      → ((x : Otp) → p (f x) ≡ true → p x ≡ true)
      → Gaps now os
      → Gaps now (update_where q f os)
  unfolding update_where
  Gaps-update q f now [] c e u h = tt
  Gaps-update q f now (o ∷ os) c e u h = elim (Bool-cases (q o)) [
    | inl hit ↦ rw hit (
      (λ own.
          let (old, ends, rest) = h.0 (u o own) in
          (
            rw (c o) old,
            rw (e o, c o) ends,
            rw (c o) (
                update_where-All (After o.created_at) q f os
                  (λ x hit g mine. rw (c x) (g (u x mine))) rest),
          )),
      Gaps-update q f now os c e u h.1,
    )
    | inr miss ↦ rw miss (
      (λ own.
          let (old, ends, rest) = h.0 own in
          (
            old,
            ends,
            update_where-All (After o.created_at) q f os (λ x hit g mine. rw (c x) (g (u x mine)))
                rest,
          )),
      Gaps-update q f now os c e u h.1,
    )
  ]

  pub Gaps-delete :
      (q : Otp → Bool) (now : ℕ) (os : List Otp) → Gaps now os → Gaps now (delete_where q os)
  unfolding delete_where
  Gaps-delete q now [] h = tt
  Gaps-delete q now (o ∷ os) h = elim (Bool-cases (q o)) [
    | inl hit ↦ rw hit (Gaps-delete q now os h.1)
    | inr miss ↦ rw miss (
      (λ own.
          let (old, ends, rest) = h.0 own in
          (old, ends, delete_where-All (After o.created_at) q os rest)),
      Gaps-delete q now os h.1,
    )
  ]

  pub Gaps-later : (now d : ℕ) (os : List Otp) → Gaps now os → Gaps (now + d) os
  Gaps-later now d [] h = tt
  Gaps-later now d (o ∷ os) h = (
    (λ own. let (old, ends, rest) = h.0 own in (ground arith, ends, rest)),
    Gaps-later now d os h.1,
  )

  abbrev count : ℕ → List Otp → ℕ
  count now os = length (where_ (is_live guest purpose now) os)

  count_lem :
      (now k : ℕ) (os : List Otp)
      → Gaps now os
      → All (λ x. is_live guest purpose now x ≡ true → k < x.created_at + 600000) os
      → (count now os ≡ 0) ⊎ (count now os * 60001 + k ≤ now + 660000)
  unfolding where_
  count_lem now k [] h late = inl refl
  count_lem now k (o ∷ os) h late = elim (Bool-cases (is_live guest purpose now o)) [
    | inl live ↦
        let own : is_unused guest purpose o ≡ true = ground arith in
        let (old, ends, rest) = h.0 own in
        let first = late.0 live in
        let ih = count_lem now (o.created_at + 660000) os h.1 (
          imp-All _ os
            (λ x (g : After o.created_at x) (now_live : is_live guest purpose now x ≡ true).
              let own' : is_unused guest purpose x ≡ true = ground arith in
              let far = g own' in ground arith)
            rest) in
        rw live (inr (ground arith))
    | inr dead ↦ rw dead (count_lem now k os h.1 late.1)
  ]

  live_late :
      (now : ℕ) (os : List Otp)
      → Gaps now os
      → All (λ x. is_live guest purpose now x ≡ true → now < x.created_at + 600000) os
  live_late now [] h = tt
  live_late now (o ∷ os) h = (
    (λ live.
        let own : is_unused guest purpose o ≡ true = ground arith in
        let (old, ends, rest) = h.0 own in ground arith),
    live_late now os h.1,
  )

  -- At most ten of them are live.
  pub ten_codes : (now : ℕ) (os : List Otp) → Gaps now os → count now os ≤ 10
  ten_codes now os h = let few = count_lem now now os h (live_late now os h) in ground arith
