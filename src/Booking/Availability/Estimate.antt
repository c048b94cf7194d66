-- ===== src/Booking/Availability/Estimate.antt =====
-- The estimate of the beds that are left, when eZee cannot be reached.
use mathlib.Core.List.{Memᴰ}
use vibehouse_backend.Common.{
  ℕ, ◌+◌, ◌-◌, ◌<◌, ◌≤◌, ◌≡◌, true, false, List, ◌∷◌, where_, sum_of, delete_where,
}
use vibehouse_backend.Booking.Rooms.{nights_between}
use vibehouse_backend.Booking.Beds.{guests_between}
use vibehouse_backend.Booking.Availability.{
  RoomTypeDetail, Offer, Availability, Rooms, RoomServices, is_offered, CachedStay,
}
use vibehouse_backend.Booking.Availability.Stays.{is_stay, offers_from_db}

module _ (env : RoomServices) (property checkin checkout : ℕ) (s : Rooms) where
  -- The active room types of the property.
  abbrev pub offered : List RoomTypeDetail
  offered = where_ (is_offered property) s.types

  -- The guests on a night whose bookings are stored under the name of a room type.
  abbrev pub guests_on : (name night : ℕ) → ℕ
  guests_on name night = sum_of (guests_between property name night (night + 1)) s.bookings

  -- The offer is of an active type of the property, for at most the beds that these guests leave on
  -- the fullest night of the stay.
  abbrev pub IsSafe : Offer → Type 0
  IsSafe o =
      (t : RoomTypeDetail) × (is_offered property t ≡ true)
      × (o.id ≡ t.id)
      × ((night : ℕ)
          → checkin ≤ night
          → night < checkout
          → o.available_beds ≤ t.total_beds - guests_on t.name night)

  abbrev IsListed : RoomTypeDetail → Type 0
  IsListed t = (is_offered property t ≡ true) × Memᴰ t offered

  abbrev estimate : Availability
  estimate =
      let nights = nights_between checkin checkout in
      record {
        is_live = false;
        no_of_nights = nights;
        offers = offers_from_db env property checkin checkout nights offered s.bookings;
      }

  abbrev entry : CachedStay
  entry = record {
    property_id = property;
    checkin = checkin;
    checkout = checkout;
    answer = estimate;
    expires_at = s.now + 1800000;
  }

  -- The state once the estimate is cached.
  abbrev cached : Rooms
  cached = record s { stays = entry ∷ delete_where (is_stay env property checkin checkout) s.stays }
