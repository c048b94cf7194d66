-- ===== src/Kyc.antt =====
-- The identity papers of a booking's guests (src/guest/kyc/guest-kyc.service.ts and `deleteDocument`
-- of src/admin/kyc/admin-kyc.service.ts). A slot is open to every guest with access to the booking
-- until it is verified.
pub mod Age
pub mod Slots
pub mod Documents
pub mod Requests
pub mod Server
pub mod Balance
pub mod Numbers
use vibehouse_backend.Common.{ℕ, Bool, not, ◌&&◌, Option, none, some, ◌==◌, find}
use vibehouse_backend.Exec.{
  pure, gets, or_throw, throw_if, ◌>>=◌, ◌>>◌, forbidden, slot_not_found, slot_locked,
}
use vibehouse_backend.Tables.{Slot, is_verified}
use vibehouse_backend.World.{World, Action}
use vibehouse_backend.Booking.Link.{approved_access}

abbrev pub slot_in : ℕ → ℕ → World → Option Slot
slot_in slot eri w = find (λ s. s.id == slot && s.ezee_reservation_id == eri) w.db.slots

-- `verifyBookingAccess` and the tests of the slot that follow it.
unfoldable pub open_slot : (guest eri slot : ℕ) → Action Slot
unfolding ◌>>=◌
open_slot guest eri slot = do
  or_throw (← gets (approved_access eri guest)) forbidden
  s ← or_throw (← gets (slot_in slot eri)) slot_not_found
  throw_if (is_verified s.kyc_status) slot_locked
  pure s
