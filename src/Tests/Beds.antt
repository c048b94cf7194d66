-- ===== src/Tests/Beds.antt =====
-- The taken beds of a dormitory, from day 10 to day 13.
use vibehouse_backend.Common.{◌≡◌, refl, true, none, some, List, [], ◌∷◌, where_, find}
use vibehouse_backend.Booking.Beds.{
  RoomBooking, RoomType, beds, count_bookings, get_booked_beds_map,
}

abbrev types : List RoomType
types = record { id = 1; name = 81 } ∷ record { id = 2; name = 82 } ∷ []

abbrev booking : RoomBooking
booking = record {
  property_id = 1;
  is_current = true;
  is_active = true;
  room_type_name = some 81;
  no_of_guests = some 3;
  checkin_date = some 8;
  checkout_date = some 11;
}

abbrev rows : List RoomBooking
rows =
    booking
    ∷ record booking { no_of_guests = none; checkin_date = some 12; checkout_date = some 15 }
    ∷ record booking { room_type_name = some 82 }
    ∷ []

four_beds : beds (get_booked_beds_map 1 10 13 types rows) 1 ≡ 4
unfolding beds get_booked_beds_map count_bookings where_ find
four_beds = refl
