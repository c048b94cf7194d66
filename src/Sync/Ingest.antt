-- ===== src/Sync/Ingest.antt =====
-- `ingestExternalBookings`: the reservations that eZee has and we do not; and the whole pass.
pub mod Once
pub mod Added
use vibehouse_backend.Common.{
  is_some, ℕ, Bool, true, false, ◌&&◌, ◌||◌, not, Option, none, some, List, [], ◌∷◌, ◌++◌, ◌==◌,
  holds_id, find, if◌then◌else◌,
}
use vibehouse_backend.Exec.{
  Result, ok, pure, gets, throw_if, for_each, if_found, ◌>>=◌, ◌>>◌, unique_violation,
}
use vibehouse_backend.Tables.{Guest}
use vibehouse_backend.Booking.Link.{same_text}
use vibehouse_backend.Sync.{
  Eri, external, eri_eq, Status, confirmed, cancelled, no_show, EzeeStatus, ezee_status_map, Cached,
  Sync, Act, Fetched, set_bookings,
}
use vibehouse_backend.Sync.Drift.{reconcile_unsynced_bookings, reconcile_ezee_state}

-- A reservation, as `fetchReservationsByDateRange` answers it.
pub record Reservation : Type 0 where
  pub reservation_no : ℕ
  pub status : EzeeStatus
  pub room_name : Option ℕ
  pub email : Option ℕ
  pub phone : Option ℕ

-- `existingSet.has(no)` and `existingEriSet.has(eri)`
abbrev pub has_number : List Cached → ℕ → Bool
has_number rows number = is_some (find (λ b. holds_id b.reservation_no number) rows)

abbrev pub has_eri : List Cached → Eri → Bool
has_eri rows eri = is_some (find (λ b. eri_eq b.eri eri) rows)

-- Cancelled, or never arrived.
abbrev pub is_dead : Option Status → Bool
is_dead (some cancelled) = true
is_dead (some no_show) = true
is_dead _ = false

abbrev pub status_or_confirmed : Option Status → Status
status_or_confirmed none = confirmed
status_or_confirmed (some s) = s

module _ (city property_id : ℕ) where
  abbrev pub new_booking : Reservation → Cached
  new_booking r = record {
    eri = external city r.reservation_no;
    property_id = property_id;
    reservation_no = some r.reservation_no;
    room_number = r.room_name;
    status = status_or_confirmed (ezee_status_map r.status);
    is_active = true;
    booker_email = r.email;
    booker_phone = r.phone;
    paid = none;
  }

  -- The three `continue`s, for the rows that were read before the loop.
  abbrev pub skips : List Cached → Reservation → Bool
  skips rows r =
      has_number rows r.reservation_no
      || has_eri rows (external city r.reservation_no)
      || is_dead (ezee_status_map r.status)

  -- `ezee_booking_cache.create`
  unfoldable pub create_booking : Cached → Act (Unit {0})
  unfolding ◌>>=◌
  create_booking b = do
    clash ← gets (λ s. has_eri s.bookings b.eri)
    throw_if clash unique_violation
    set_bookings λ rows. rows ++ b ∷ []

  -- `booking_guest_access.create`
  unfoldable pub create_access : Eri → ℕ → Act (Unit {0})
  unfolding ◌>>=◌
  create_access eri guest s =
      if is_some (find (λ a. eri_eq a.0 eri && a.1 == guest) s.access)
      then throw_if true unique_violation s
      else (ok tt, record s { access = s.access ++ (eri, guest) ∷ [] })

  -- A `catch` that only logs.
  abbrev pub quietly : Act (Unit {0}) → Act (Unit {0})
  quietly act s = (ok tt, (act s).1)

  -- The mail about it is not modelled.
  unfoldable pub link_guest : Reservation → Act (Unit {0})
  unfolding ◌>>=◌
  link_guest r = do
    found ← gets (λ s. find (λ g. same_text r.email g.email || same_text r.phone g.phone) s.guests)
    if_found found (λ g. create_access (external city r.reservation_no) g.id) (pure tt)

  unfoldable pub ingest_one : List Cached → Reservation → Act (Unit {0})
  unfolding ◌>>=◌
  ingest_one rows r =
      if skips rows r then pure tt else (do create_booking (new_booking r); quietly (link_guest r))

  -- An exception, also of eZee, ends the property's turn and no other's.
  unfoldable pub ingest_property : Option (List Reservation) → Act (Unit {0})
  unfolding ◌>>=◌
  ingest_property none = pure tt
  ingest_property (some rs) =
      quietly (gets (λ s. s.bookings) >>= λ rows. for_each rs (ingest_one rows))

-- A property: its id and its city. What eZee answers about it is a parameter.
unfoldable pub ingest_external_bookings :
    (ℕ → Option (List Reservation)) → List (ℕ × ℕ) → Act (Unit {0})
unfolding ◌>>=◌
ingest_external_bookings arrivals properties =
    for_each properties λ p. ingest_property p.1 p.0 (arrivals p.0)

unfoldable pub reconcile :
    (ℕ → ℕ → Fetched) → (ℕ → Option (List Reservation)) → List (ℕ × ℕ) → Act (Unit {0})
unfolding ◌>>=◌
reconcile ezee arrivals properties = do
  reconcile_unsynced_bookings
  reconcile_ezee_state ezee
  ingest_external_bookings arrivals properties
