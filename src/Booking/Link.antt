-- ===== src/Booking/Link.antt =====
-- `linkBooking` and `getCheckinStatus`: who may see a booking.
use vibehouse_backend.Common.{
  ℕ, Bool, true, false, ◌&&◌, ◌||◌, Option, none, some, [], ◌∷◌, ◌++◌, ◌==◌, holds_id,
  if◌then◌else◌, find,
}
use vibehouse_backend.Exec.{
  pure, gets, if_found, or_throw, ◌>>=◌, ◌>>◌, booking_not_found, forbidden,
}
use vibehouse_backend.Tables.{Booking, Guest, Role, primary, secondary, Access}
use vibehouse_backend.World.{World, Action, Services, set_access, draw_uuid}
use vibehouse_backend.Booking.Orders.{booking_of}
use vibehouse_backend.Booking.Slots.{ensure_slots}

abbrev pub same_text : Option ℕ → Option ℕ → Bool
same_text none b = false
same_text (some a) b = holds_id b a

-- `isBookerMatch`
abbrev pub is_booker : Option Guest → Booking → Bool
is_booker none b = false
is_booker (some g) b = same_text g.email b.booker_email || same_text g.phone b.booker_phone

abbrev pub role_for : Option Guest → Booking → Role
role_for g b = if is_booker g b then primary else secondary

abbrev pub access_of : ℕ → ℕ → World → Option Access
access_of eri guest w = find (λ a. a.ezee_reservation_id == eri && a.guest_id == guest) w.db.access

abbrev pub approved_access : ℕ → ℕ → World → Option Access
approved_access eri guest w =
    find (λ a. a.ezee_reservation_id == eri && a.guest_id == guest && a.approved) w.db.access

module _ (env : Services) where
  unfoldable pub grant : ℕ → ℕ → Booking → Action Role
  unfolding ◌>>=◌
  grant guest eri b = do
    g ← gets (λ w. find (λ g. g.id == guest) w.db.guests)
    id ← draw_uuid env
    set_access λ rows.
        rows
        ++ record {
          id = id;
          ezee_reservation_id = eri;
          guest_id = guest;
          role = role_for g b;
          approved = true;
        }
          ∷ []
    pure (role_for g b)

  unfoldable pub link_booking : ℕ → ℕ → Action Role
  unfolding grant ◌>>=◌
  link_booking guest eri = do
    booking ← or_throw (← gets (booking_of eri)) booking_not_found
    existing ← gets (access_of eri guest)
    role ← if_found existing (λ a. pure a.role) (grant guest eri booking)
    ensure_slots env eri guest booking.no_of_guests
    pure role

-- Answers with the booking.
unfoldable pub get_checkin_status : ℕ → ℕ → Action Booking
unfolding ◌>>=◌
get_checkin_status guest eri = do
  booking ← or_throw (← gets (booking_of eri)) booking_not_found
  or_throw (← gets (approved_access eri guest)) forbidden
  pure booking
