-- ===== src/Sync/Ingest/Once.antt =====
-- Which reservations are ingested: each that is new, once.
use vibehouse_backend.Common.{
  is_some, ℕ, ◌≡◌, ◌≢◌, refl, ap, sym, ◌∙◌, Bool, true, false, ◌&&◌, ◌||◌, not, some, List, [], ◌∷◌,
  ◌++◌, ◌==◌, find, where_, map, All, imp-All, where_-none, where_-back, found_kept, found_there,
  ==_self, holds_id, Bool-cases, Option-cases, inl, inr, arith,
}
use mathlib.Core.Path.{subst}
use mathlib.Core.List.{append_assoc, append-nil}
use vibehouse_backend.Exec.{for_each, ◌>>=◌}
use vibehouse_backend.Booking.Link.{same_text}
use vibehouse_backend.Sync.{external, eri_eq, Cached, Sync, set_bookings}
use vibehouse_backend.Sync.Ingest.{
  Reservation, has_eri, has_number, new_booking, skips, create_booking, create_access, link_guest,
  ingest_one, ingest_property,
}

-- The answers do not repeat a reservation.
abbrev pub Distinct : List Reservation → Type 0
Distinct [] = Unit
Distinct (r ∷ rs) = All (λ q. q.reservation_no ≢ r.reservation_no) rs × Distinct rs

missing_after :
    {A : Type 0} (q : A → Bool) (rows : List A) (x : A)
    → q x ≡ false
    → is_some (find q rows) ≡ false
    → is_some (find q (rows ++ x ∷ [])) ≡ false
unfolding find
missing_after q [] x no' e = rw no' refl
missing_after q (y ∷ rows) x no' e = ground (arith, missing_after q rows x no')

module _ (city property_id : ℕ) where
  -- Linking the guest leaves the bookings as they are.
  link_guest-bookings :
      (r : Reservation) (s : Sync) → (link_guest city property_id r s).1.bookings ≡ s.bookings
  unfolding link_guest create_access ◌>>=◌
  link_guest-bookings r s =
      elim (Option-cases
        (find (λ g. same_text r.email g.email || same_text r.phone g.phone) s.guests)) [
          | inl nobody ↦ rw nobody refl
          | inr (g, found) ↦
              elim (Bool-cases (
                is_some (
                  find (λ a. eri_eq a.0 (external city r.reservation_no) && a.1 == g.id)
                    s.access))) [
                      | inl there ↦ rw (found, there) refl
                      | inr free ↦ rw (found, free) refl
                    ]
        ]

  module _ (known : List Cached) where
    abbrev Open : List Cached → Reservation → Type 0
    Open rows r =
        skips city property_id known r ≡ false
        → has_eri rows (external city r.reservation_no) ≡ false

    missing_in_rest :
        (r : Reservation) (rows : List Cached) (rs : List Reservation)
        → All (λ q. q.reservation_no ≢ r.reservation_no) rs
        → All (Open rows) rs
        → All (Open (rows ++ new_booking city property_id r ∷ [])) rs
    missing_in_rest r rows [] other h = tt
    missing_in_rest r rows (q ∷ rs) other h = (
      (λ keep.
          missing_after _ rows (new_booking city property_id r)
            (let differ = other.0 in ground arith) (h.0 keep)),
      missing_in_rest r rows rs other.1 h.1,
    )

    abbrev pub fresh : List Reservation → List Reservation
    fresh rs = where_ (λ r. not (skips city property_id known r)) rs

    ingest_loop :
        (rs : List Reservation) (s : Sync)
        → Distinct rs
        → All (Open s.bookings) rs
        → (for_each rs (ingest_one city property_id known) s).1.bookings
          ≡ s.bookings ++ map (new_booking city property_id) (fresh rs)
    unfolding for_each where_ ingest_one create_booking set_bookings ◌>>=◌
    ingest_loop [] s d h = sym (append-nil s.bookings)
    ingest_loop (r ∷ rs) s d h = elim (Bool-cases (skips city property_id known r)) [
      | inl skip ↦ rw skip (ingest_loop rs s d.1 h.1)
      | inr keep ↦
          let new = new_booking city property_id r in
          let s' = record s { bookings = s.bookings ++ new ∷ [] } in
          let s'' = (link_guest city property_id r s').1 in
          let same : s''.bookings ≡ s.bookings ++ new ∷ [] = link_guest-bookings r s' in
          let ih = ingest_loop rs s'' d.1 (
            subst (λ rows. All (Open rows) rs) (sym same)
              (missing_in_rest r s.bookings rs d.0 h.1)) in
          rw (keep, h.0 keep)
            (ih
              ∙ ap (λ rows. rows ++ map (new_booking city property_id) (fresh rs)) same
              ∙ append_assoc s.bookings (new ∷ []) (map (new_booking city property_id) (fresh rs)))
    ]

    missing_at_start : (rs : List Reservation) → All (Open known) rs
    missing_at_start [] = tt
    missing_at_start (r ∷ rs) = ((λ keep. ground arith), missing_at_start rs)

  -- The loop as a filter: a booking for each reservation that is not skipped, in order.
  pub ingest_property_lem :
      (rs : List Reservation) (s : Sync)
      → Distinct rs
      → (ingest_property city property_id (some rs) s).1.bookings
        ≡ s.bookings ++ map (new_booking city property_id) (fresh s.bookings rs)
  unfolding ingest_property ◌>>=◌
  ingest_property_lem rs s d = ingest_loop s.bookings rs s d (missing_at_start s.bookings rs)

  abbrev IsCached : List Cached → Reservation → Type 0
  IsCached rows r = has_number rows r.reservation_no ≡ true

  number_there :
      (rows : List Cached) (cs : List Reservation)
      → All (IsCached (rows ++ map (new_booking city property_id) cs)) cs
  number_there rows [] = tt
  number_there rows (r ∷ cs) =
      let new = new_booking city property_id r in
      let more = map (new_booking city property_id) cs in
      (
        found_there _ rows new more (==_self r.reservation_no),
        subst (λ t. All (IsCached t) cs) (append_assoc rows (new ∷ []) more)
            (number_there (rows ++ new ∷ []) cs),
      )

  still_skipped :
      (rows more : List Cached) (r : Reservation)
      → skips city property_id rows r ≡ true
      → skips city property_id (rows ++ more) r ≡ true
  still_skipped rows more r e =
      let number = found_kept (λ b. holds_id b.reservation_no r.reservation_no) rows more in
      let eri = found_kept (λ b. eri_eq b.eri (external city r.reservation_no)) rows more in
      ground (arith)

  skipped_again :
      (rows : List Cached) (r : Reservation) (more : List Cached)
      → (not (skips city property_id rows r) ≡ true
          → has_number (rows ++ more) r.reservation_no ≡ true)
      → not (skips city property_id (rows ++ more) r) ≡ false
  skipped_again rows r more there = elim (Bool-cases (skips city property_id rows r)) [
    | inl skip ↦ ap not (still_skipped rows more r skip)
    | inr keep ↦ let number = there (ap not keep) in ground (arith)
  ]

  -- A second turn with the same answer adds no booking.
  pub ingest_property_twice :
      (rs : List Reservation) (s : Sync)
      → Distinct rs
      → (ingest_property city property_id
          (some rs)
          (ingest_property city property_id (some rs) s).1).1.bookings
        ≡ (ingest_property city property_id (some rs) s).1.bookings
  ingest_property_twice rs s d =
      let once = ingest_property_lem rs s d in
      let s' = (ingest_property city property_id (some rs) s).1 in
      let more = map (new_booking city property_id) (fresh s.bookings rs) in
      let again : fresh (s.bookings ++ more) rs ≡ [] = where_-none _ rs (
        imp-All _ rs (λ r there. skipped_again s.bookings r more there)
          (where_-back (IsCached (s.bookings ++ more)) _ rs
            (number_there s.bookings (fresh s.bookings rs)))) in
      ingest_property_lem rs s' d
      ∙ ap (λ cs. s'.bookings ++ map (new_booking city property_id) cs)
          (subst (λ t. fresh t rs ≡ []) (sym once) again)
      ∙ append-nil s'.bookings
