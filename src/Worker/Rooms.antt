-- ===== src/Worker/Rooms.antt =====
-- `parseBookingRooms`, `buildEzeeRooms` and `calcNights`.
use vibehouse_backend.Common.{
  ℕ, zero, suc, ◌-◌, Bool, true, false, ◌&&◌, Option, none, some, List, [], ◌∷◌, ◌++◌, map, ◌==◌,
  find, where_, leb, if◌then◌else◌,
}
use vibehouse_backend.Worker.{
  Gender, male, female, RoomGuest, ParsedRoom, Segment, RoomTypeRow, SyncBooking, EzeeRoom,
}

abbrev pub or_else {ℓ} : {A : Type ℓ} → Option A → Option A → Option A
or_else none b = b
or_else (some a) b = some a

abbrev pub or_value {ℓ} : {A : Type ℓ} → Option A → A → A
or_value none b = b
or_value (some a) b = a

-- The rate type falls back to the rate plan.
abbrev pub with_rate_type : ParsedRoom → ParsedRoom
with_rate_type r = record r { ezee_rate_type_id = or_else r.ezee_rate_type_id r.ezee_rate_plan_id }

abbrev pub of_room_type : RoomTypeRow → ℕ → ParsedRoom
of_room_type rt quantity = record {
  ezee_room_type_id = rt.ezee_room_type_id;
  ezee_rate_plan_id = rt.ezee_rate_plan_id;
  ezee_rate_type_id = or_else rt.ezee_rate_type_id rt.ezee_rate_plan_id;
  quantity = quantity;
  price_per_night = rt.base_price_per_night;
  guests = none;
}

abbrev pub select_type : Option RoomTypeRow → ℕ → List ParsedRoom → List ParsedRoom
select_type none quantity rest = rest
select_type (some rt) quantity rest = of_room_type rt quantity ∷ rest

-- The older form of a booking's rooms: a segment that cannot be read, or whose type is not found,
-- is passed over.
unfoldable pub select_segments : List RoomTypeRow → List (Option Segment) → List ParsedRoom
select_segments types [] = []
select_segments types (none ∷ segments) = select_segments types segments
select_segments types (some g ∷ segments) =
    select_type (find (λ rt. rt.name == g.name) types) g.quantity (select_segments types segments)

abbrev pub select_named : List RoomTypeRow → Option (List (Option Segment)) → List ParsedRoom
select_named types none = []
select_named types (some segments) = select_segments types segments

abbrev pub rooms_or : Option (List ParsedRoom) → List ParsedRoom → List ParsedRoom
rooms_or none old = old
rooms_or (some rooms) old = map with_rate_type rooms

unfoldable pub parse_booking_rooms : List RoomTypeRow → SyncBooking → List ParsedRoom
parse_booking_rooms types b = rooms_or b.booking_rooms (
    select_named (where_ (λ rt. rt.property_id == b.property_id && rt.is_active) types)
      b.room_type_name)

-- `sel.guests?.[q]`, the guests from `q` on.
abbrev pub first_guest : List RoomGuest → Option RoomGuest
first_guest [] = none
first_guest (g ∷ gs) = some g

abbrev pub other_guests : List RoomGuest → List RoomGuest
other_guests [] = []
other_guests (g ∷ gs) = gs

abbrev pub is_female : Gender → Bool
is_female female = true
is_female _ = false

abbrev pub gender_of : Option RoomGuest → Gender
gender_of none = male
gender_of (some g) = or_value g.gender male

module _ (number_of_nights : ℕ) (default_first default_last : List ℕ) where
  abbrev pub room_for : ParsedRoom → Option RoomGuest → EzeeRoom
  room_for sel guest = record {
    room_type_id = sel.ezee_room_type_id;
    rate_plan_id = sel.ezee_rate_plan_id;
    rate_type_id = sel.ezee_rate_type_id;
    rate_per_night = sel.price_per_night;
    number_of_nights = number_of_nights;
    first_name = elim guest [ none ↦ default_first | some g ↦ or_value g.first_name default_first ];
    last_name = elim guest [ none ↦ default_last | some g ↦ or_value g.last_name default_last ];
    gender = gender_of guest;
    title_ms = is_female (gender_of guest);
  }

  -- The inner loop, with the quantity that is left and the guests that are left.
  unfoldable pub rooms_of : ParsedRoom → ℕ → List RoomGuest → List EzeeRoom
  rooms_of sel zero guests = []
  rooms_of sel (suc n) guests =
      room_for sel (first_guest guests) ∷ rooms_of sel n (other_guests guests)

  unfoldable pub build_ezee_rooms : List ParsedRoom → List EzeeRoom
  build_ezee_rooms [] = []
  build_ezee_rooms (sel ∷ sels) =
      rooms_of sel sel.quantity (or_value sel.guests []) ++ build_ezee_rooms sels

-- `Math.max(1, …)` of whole days; a day that is missing makes it one night.
unfoldable pub calc_nights : Option ℕ → Option ℕ → ℕ
calc_nights none checkout = 1
calc_nights (some a) none = 1
calc_nights (some a) (some b) = if leb (b - a) 1 then 1 else b - a
