-- ===== src/Auth/Linked.antt =====
-- Which bookings a login links.
use vibehouse_backend.Common.{
  found_kept, found_there, is_some, ℕ, suc, ◌≡◌, ◌≢◌, refl, ap, sym, ◌∙◌, Bool, true, ◌&&◌, not,
  none, List, [], ◌∷◌, ◌++◌, find, where_, All, imp-All, where_-All, where_-true, where_-back,
  where_-none, where_-imp, Option-cases, Bool-cases, inl, inr, if◌then◌else◌, arith,
}
use mathlib.Core.Path.{subst}
use mathlib.Core.List.{append_assoc, append-nil}
use vibehouse_backend.Exec.{ok, for_each, ◌>>=◌}
use vibehouse_backend.Tables.{Booking, Access, primary, secondary}
use vibehouse_backend.Auth.{Account, Auth, AuthServices, set_links, draw_id}
use vibehouse_backend.Auth.Link.{matches, link_of, insert_link, to_link, link_one, auto_link}

-- The primary key of the bookings.
abbrev pub Distinct : List Booking → Type 0
Distinct [] = Unit
Distinct (b ∷ bs) = All (λ c. c.ezee_reservation_id ≢ b.ezee_reservation_id) bs × Distinct bs

module _ (env : AuthServices) (guest : Account) where
  abbrev pub link : ℕ → Booking → Access
  link d b = record {
    id = env.uuid d;
    ezee_reservation_id = b.ezee_reservation_id;
    guest_id = guest.id;
    role = if matches guest b then primary else secondary;
    approved = true;
  }

  -- A row for each booking, with a new uuid each.
  abbrev pub links : ℕ → List Booking → List Access
  links d [] = []
  links d (b ∷ bs) = link d b ∷ links (suc d) bs

  link_one_lem :
      (b : Booking) (s : Auth)
      → link_of b.ezee_reservation_id guest.id s.access ≡ none
      → link_one env guest b s
        ≡ (ok tt, record s { access = s.access ++ link s.drawn b ∷ []; drawn = suc s.drawn })
  unfolding link_one insert_link draw_id set_links ◌>>=◌
  link_one_lem b s free = rw free refl

  -- A booking with another id is as free as before.
  none_after :
      (eri : ℕ) (a : Access) (rows : List Access)
      → eri ≢ a.ezee_reservation_id
      → link_of eri guest.id rows ≡ none
      → link_of eri guest.id (rows ++ a ∷ []) ≡ none
  unfolding find
  none_after eri a [] other e = ground arith
  none_after eri a (x ∷ rows) other e = ground (arith, none_after eri a rows other)

  abbrev Free : List Access → Booking → Type 0
  Free rows b = link_of b.ezee_reservation_id guest.id rows ≡ none

  rows_after :
      (a : Access) (rows : List Access) (cs : List Booking)
      → All (λ c. c.ezee_reservation_id ≢ a.ezee_reservation_id) cs
      → All (Free rows) cs
      → All (Free (rows ++ a ∷ [])) cs
  rows_after a rows [] other h = tt
  rows_after a rows (c ∷ cs) other h =
      (none_after c.ezee_reservation_id a rows other.0 h.0, rows_after a rows cs other.1 h.1)

  not_linked :
      (b : Booking) (rows : List Access)
      → not (is_some (link_of b.ezee_reservation_id guest.id rows)) ≡ true
      → Free rows b
  not_linked b rows e = elim (Option-cases (link_of b.ezee_reservation_id guest.id rows)) [
    | inl free ↦ free
    | inr (a, found) ↦ absurd (cc (rw found at e))
  ]

  -- The loop links every booking, and writes nothing else.
  link_loop :
      (bs : List Booking) (s : Auth)
      → Distinct bs
      → All (Free s.access) bs
      → ((for_each bs (link_one env guest) s).1.access ≡ s.access ++ links s.drawn bs)
        × ((for_each bs (link_one env guest) s).1.bookings ≡ s.bookings)
  unfolding for_each ◌>>=◌
  link_loop [] s d free = (sym (append-nil s.access), refl)
  link_loop (b ∷ bs) s d free =
      let one = link_one_lem b s free.0 in
      let new = link s.drawn b in
      let ih =
        link_loop bs (record s { access = s.access ++ new ∷ []; drawn = suc s.drawn }) d.1
          (rows_after new s.access bs d.0 free.1) in
      (rw one (ih.0 ∙ append_assoc s.access (new ∷ []) (links (suc s.drawn) bs)), rw one ih.1)

  abbrev pub Linked : List Access → Booking → Type 0
  Linked rows b = is_some (link_of b.ezee_reservation_id guest.id rows) ≡ true

  links-Linked :
      (bs : List Booking) (d : ℕ) (rows : List Access) → All (Linked (rows ++ links d bs)) bs
  links-Linked [] d rows = tt
  links-Linked (b ∷ bs) d rows = (
    found_there _ rows (link d b) (links (suc d) bs) (ground arith),
    subst (λ r. All (Linked r) bs) (append_assoc rows (link d b ∷ []) (links (suc d) bs))
        (links-Linked bs (suc d) (rows ++ link d b ∷ [])),
  )

  where_-Distinct : (q : Booking → Bool) (bs : List Booking) → Distinct bs → Distinct (where_ q bs)
  unfolding where_
  where_-Distinct q [] d = tt
  where_-Distinct q (b ∷ bs) d = elim (Bool-cases (q b)) [
    | inl hit ↦ rw hit (where_-All _ q bs d.0, where_-Distinct q bs d.1)
    | inr miss ↦ rw miss (where_-Distinct q bs d.1)
  ]

  abbrev wanted : Booking → Bool
  wanted b = matches guest b && b.is_active

  to_link-Free :
      (rows : List Access) (bs : List Booking)
      → All
          (Free rows)
          (where_ (λ b. not (is_some (link_of b.ezee_reservation_id guest.id rows))) bs)
  to_link-Free rows bs = imp-All _ _ (λ b e. not_linked b rows e) (where_-true _ bs)

  before_or_now :
      (b : Booking) (s : Auth)
      → (not (is_some (link_of b.ezee_reservation_id guest.id s.access)) ≡ true
          → Linked (s.access ++ links s.drawn (to_link guest s)) b)
      → Linked (s.access ++ links s.drawn (to_link guest s)) b
  before_or_now b s now' =
      elim (Bool-cases (is_some (link_of b.ezee_reservation_id guest.id s.access))) [
        | inl before ↦ found_kept _ s.access _ before
        | inr free ↦ now' (rw free refl)
      ]

  wanted_rows :
      (s : Auth)
      → All
          (λ b. wanted b ≡ true → Linked (s.access ++ links s.drawn (to_link guest s)) b)
          s.bookings
  wanted_rows s =
      let rows = s.access ++ links s.drawn (to_link guest s) in
      let new = where_-back (Linked rows) _ _ (links-Linked (to_link guest s) s.drawn s.access) in
      where_-back (Linked rows) wanted s.bookings (imp-All _ _ (λ b f. before_or_now b s f) new)

  -- One run links the bookings that are to be linked, with a new uuid each, and afterwards every
  -- active booking with the guest's email or phone is linked. The reservation ids of the bookings
  -- are distinct.
  pub auto_link_lem :
      (s : Auth)
      → Distinct s.bookings
      → ((auto_link env guest s).1.access ≡ s.access ++ links s.drawn (to_link guest s))
        × ((auto_link env guest s).1.bookings ≡ s.bookings)
        × All (λ b. wanted b ≡ true → Linked (auto_link env guest s).1.access b) s.bookings
  unfolding auto_link ◌>>=◌
  auto_link_lem s d =
      let run =
        link_loop (to_link guest s) s (where_-Distinct _ _ (where_-Distinct wanted s.bookings d))
          (to_link-Free s.access (where_ wanted s.bookings)) in
      (run.0, run.1, rw run.0 (wanted_rows s))

  -- Linking again changes no access row.
  pub auto_link_twice :
      (s : Auth)
      → Distinct s.bookings
      → (auto_link env guest (auto_link env guest s).1).1.access ≡ (auto_link env guest s).1.access
  auto_link_twice s d =
      let once = auto_link_lem s d in
      let s' = (auto_link env guest s).1 in
      let wants =
        subst (λ bs. All (λ b. wanted b ≡ true → Linked s'.access b) bs) (sym once.1) once.2 in
      let nothing : to_link guest s' ≡ [] = where_-none _ _ (
        imp-All _ _ (λ b (e : Linked s'.access b). ap not e)
          (where_-imp (Linked s'.access) wanted s'.bookings wants)) in
      (auto_link_lem s' (subst Distinct (sym once.1) d)).0
      ∙ ap (λ bs. s'.access ++ links s'.drawn bs) nothing
      ∙ append-nil s'.access
