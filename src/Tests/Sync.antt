-- ===== src/Tests/Sync.antt =====
-- A pass of the reconciliation over three bookings.
use vibehouse_backend.Common.{
  List, arith, ℕ, ◌≡◌, ◌++◌, refl, true, none, some, [], ◌∷◌, map, All, ◌==◌, if◌then◌else◌,
}
use vibehouse_backend.Exec.{ok}
use vibehouse_backend.Sync.{
  tds, external, confirmed, confirmed_reservation, arrived, cancelled_reservation, Cached, Sync,
  Fetched, failed, tran,
}
use vibehouse_backend.Sync.Drift.{reconcile_ezee_state}
use vibehouse_backend.Sync.Ingest.{Reservation, ingest_property}
use vibehouse_backend.Sync.Ingest.Once.{ingest_property_twice}
use vibehouse_backend.Sync.Ingest.Added.{Added, ingest_property-Added}
use vibehouse_backend.Sync.Drift.Passes.{step}
use vibehouse_backend.Sync.Drift.Twice.{locks, reconcile_ezee_state_lem, reconcile_ezee_state_twice}
use vibehouse_backend.Sync.Drift.Agrees.{InStep, reconcile_ezee_state-InStep}

abbrev first : Cached
first = record {
  eri = tds 1;
  property_id = 1;
  reservation_no = some 501;
  room_number = none;
  status = confirmed;
  is_active = true;
  booker_email = none;
  booker_phone = none;
  paid = some 5000;
}

abbrev start : Sync
start = record {
  bookings =
      first
      ∷ record first { eri = external 5 502; reservation_no = some 502 }
      ∷ record first { eri = tds 3; reservation_no = none }
      ∷ [];
  guests = [];
  access = [];
  lock_requests = [];
  inserts = [];
}

-- The first guest has arrived in room 106, the second booking is cancelled.
abbrev ezee : ℕ → ℕ → Fetched
ezee property number =
    if number == 501
    then tran arrived (some 106)
    else if number == 502
    then tran cancelled_reservation none
    else failed

reconcile_ezee_state_lem_example : reconcile_ezee_state ezee start ≡ (
  ok tt,
  record start {
    bookings = map (step ezee) start.bookings;
    lock_requests = [] ++ locks ezee start.bookings;
  },
)
reconcile_ezee_state_lem_example =
    reconcile_ezee_state_lem ezee start
      ((refl, (refl, tt)), (refl, (refl, tt)), ((refl, tt), (refl, tt), (tt, tt, tt)))

reconcile_ezee_state_twice_example :
    (reconcile_ezee_state ezee (reconcile_ezee_state ezee start).1).1
    ≡ (reconcile_ezee_state ezee start).1
reconcile_ezee_state_twice_example =
    reconcile_ezee_state_twice ezee start
      ((refl, (refl, tt)), (refl, (refl, tt)), ((refl, tt), (refl, tt), (tt, tt, tt)))

reconcile_ezee_state-InStep_example : All (InStep ezee) (reconcile_ezee_state ezee start).1.bookings
reconcile_ezee_state-InStep_example =
    reconcile_ezee_state-InStep ezee start
      ((refl, (refl, tt)), (refl, (refl, tt)), ((refl, tt), (refl, tt), (tt, tt, tt)))

abbrev arrival : ℕ → Reservation
arrival number = record {
  reservation_no = number;
  status = confirmed_reservation;
  room_name = none;
  email = none;
  phone = none;
}

-- 501 is cached already.
abbrev arrivals : List Reservation
arrivals = arrival 501 ∷ arrival 601 ∷ record (arrival 602) { status = cancelled_reservation } ∷ []

ingest_property-Added_example :
    (added : List Cached) × ((ingest_property 5 1 (some arrivals) start).1.bookings
      ≡ start.bookings ++ added)
    × Added 5 1 start.bookings arrivals added
ingest_property-Added_example = ingest_property-Added 5 1 arrivals start (
  (λ e. absurd (ground arith), (λ e. absurd (ground arith), tt)),
  ((λ e. absurd (ground arith), tt), (tt, tt)),
)

ingest_property_twice_example :
    (ingest_property 5 1 (some arrivals) (ingest_property 5 1 (some arrivals) start).1).1.bookings
    ≡ (ingest_property 5 1 (some arrivals) start).1.bookings
ingest_property_twice_example = ingest_property_twice 5 1 arrivals start (
  (λ e. absurd (ground arith), (λ e. absurd (ground arith), tt)),
  ((λ e. absurd (ground arith), tt), (tt, tt)),
)
