-- ===== src/Sync.antt =====
-- The reconciliation with eZee, the hotel's booking system
-- (src/ezee/ezee-reconciliation.service.ts), which every start of the server and every 15 minutes
-- run. The cached bookings are a state of their own here, with the columns that the reconciliation
-- reads; what eZee answers is a parameter of each pass.
pub mod Drift
pub mod Ingest
use vibehouse_backend.Common.{
  ℕ, ◌+◌, Bool, true, false, ◌&&◌, ◌||◌, not, Option, none, some, List, [], ◌∷◌, ◌++◌, ◌==◌,
  holds_id, update_where, if◌then◌else◌,
}
use vibehouse_backend.Exec.{Exec, ok}
use vibehouse_backend.Tables.{Guest}

-- `TDS-…` for our own bookings, `EZEE-{city}-{reservation_no}` for the others.
pub data Eri : Type 0 where
  tds : ℕ → Eri
  external : (city reservation_no : ℕ) → Eri

abbrev pub eri_eq : Eri → Eri → Bool
eri_eq (tds a) (tds b) = a == b
eri_eq (external c a) (external d b) = c == d && a == b
eri_eq _ _ = false

-- The status of a cached booking.
pub data Status : Type 0 where
  pending_payment confirmed cancelled checked_in checked_out no_show : Status

abbrev pub status_eq : Status → Status → Bool
status_eq pending_payment pending_payment = true
status_eq confirmed confirmed = true
status_eq cancelled cancelled = true
status_eq checked_in checked_in = true
status_eq checked_out checked_out = true
status_eq no_show no_show = true
status_eq _ _ = false

-- `CurrentStatus`, as eZee writes it.
pub data EzeeStatus : Type 0 where
  confirmed_reservation cancelled_reservation arrived departed absent dayuse_reservation :
      EzeeStatus
  unknown : ℕ → EzeeStatus

unfoldable pub ezee_status_map : EzeeStatus → Option Status
ezee_status_map confirmed_reservation = some confirmed
ezee_status_map cancelled_reservation = some cancelled
ezee_status_map arrived = some checked_in
ezee_status_map departed = some checked_out
ezee_status_map absent = some no_show
ezee_status_map dayuse_reservation = some confirmed
ezee_status_map (unknown n) = none

-- ezee_booking_cache
pub record Cached : Type 0 where
  pub eri : Eri
  pub property_id : ℕ
  pub reservation_no : Option ℕ
  pub room_number : Option ℕ
  pub status : Status
  pub is_active : Bool
  pub booker_email : Option ℕ
  pub booker_phone : Option ℕ
  -- the amount of its captured booking payment
  pub paid : Option ℕ

-- `this.mygate.provisionLockAccess`, which is not waited for.
pub record LockRequest : Type 0 where
  pub eri : Eri
  pub property_id : ℕ
  pub room_number : Option ℕ

pub record Sync : Type 0 where
  pub bookings : List Cached
  pub guests : List Guest
  -- the access rows: a booking and a guest
  pub access : List (Eri × ℕ)
  pub lock_requests : List LockRequest
  -- `sendEzeeInsertBooking`: the booking and the amount
  pub inserts : List (Eri × ℕ)

abbrev pub Act {κ} : Type κ → Type κ
Act A = Exec Sync A

-- What `fetchBooking` answers: an exception, nothing, a booking without a sub-reservation, or the
-- status and the room of the first one. An empty text as the room's name is outside this model.
pub data Fetched : Type 0 where
  failed not_found without_tran : Fetched
  tran : EzeeStatus → Option ℕ → Fetched

unfoldable pub set_bookings : (List Cached → List Cached) → Act (Unit {0})
set_bookings f s = (ok tt, record s { bookings = f s.bookings })

unfoldable pub request_lock : LockRequest → Act (Unit {0})
request_lock r s = (ok tt, record s { lock_requests = s.lock_requests ++ r ∷ [] })
