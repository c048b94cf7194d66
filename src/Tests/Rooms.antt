-- ===== src/Tests/Rooms.antt =====
-- The beds of a dormitory, offered for three nights while eZee cannot be reached.
use vibehouse_backend.Common.{true, false, none, some, [], ◌∷◌}
use vibehouse_backend.Booking.Beds.{RoomBooking}
use vibehouse_backend.Booking.Availability.{RoomTypeDetail, Availability, Rooms, RoomServices}

abbrev env : RoomServices
env = record {
  inventory = λ p a b now. none;
  physical = λ p now. none;
  redis_up = λ now. true;
  named_dorm = λ n. true;
  sort_types = λ before types. types;
  sort_offers = λ before offers. offers;
  sort_catalog = λ before rooms. rooms;
}

abbrev dorm : RoomTypeDetail
dorm = record {
  id = 1;
  name = 81;
  property_id = 1;
  is_active = true;
  is_dorm = true;
  total_beds = 6;
  base_price_per_night = 60000;
  ezee_room_type_id = some 11;
  ezee_rate_plan_id = none;
  ezee_rate_type_id = none;
}

abbrev booking : RoomBooking
booking = record {
  property_id = 1;
  is_current = true;
  is_active = true;
  room_type_name = some 81;
  no_of_guests = some 3;
  checkin_date = some 8;
  checkout_date = some 11;
}

abbrev rooms : Rooms
rooms = record {
  types = dorm ∷ record dorm { id = 2; is_active = false } ∷ [];
  bookings = booking ∷ [];
  stays = [];
  catalogs = [];
  now = 5;
}
