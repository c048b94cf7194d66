-- ===== src/Store.antt =====
-- The guest store (src/guest/store/guest-store.service.ts): who may use it, the cart, loans and
-- service requests.
pub mod Balance
pub mod Cart
pub mod Requests
use vibehouse_backend.Common.{ℕ, Bool, true, false, ◌&&◌, Option, none, some, ◌==◌, find}
use vibehouse_backend.Exec.{gets, or_throw, ◌>>=◌, ◌>>◌, forbidden, booking_not_found}
use vibehouse_backend.Tables.{Booking}
use vibehouse_backend.World.{World, Action}
use vibehouse_backend.Booking.Orders.{booking_of}
use vibehouse_backend.Booking.Link.{approved_access}

-- `verifyBookingAccess`: the booking that an approved access joins.
unfoldable pub verify_booking_access : ℕ → ℕ → Action Booking
unfolding ◌>>=◌
verify_booking_access guest eri = do
  or_throw (← gets (approved_access eri guest)) forbidden
  or_throw (← gets (booking_of eri)) booking_not_found

-- `isCheckedIn`
abbrev pub is_checked_in : ℕ → ℕ → World → Bool
is_checked_in guest eri w =
    elim (find (λ c. c.ezee_reservation_id == eri && c.guest_id == guest) w.db.checkins) [
      | none ↦ false
      | some c ↦ true
    ]
