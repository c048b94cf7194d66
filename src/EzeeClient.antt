-- ===== src/EzeeClient.antt =====
-- The client of eZee (src/ezee/ezee.service.ts): how its requests are built and its answers read.
-- An answer is the JSON that came back, with the fields that the code reads; the HTTP call itself
-- is not modelled.
pub mod Arrivals
use vibehouse_backend.Common.{
  ℕ, zero, suc, ◌+◌, ◌*◌, ◌/◌, Bool, true, false, ◌&&◌, ◌||◌, not, Option, none, some, List, [],
  ◌∷◌, ◌++◌, map, ◌==◌, leb, find, if◌then◌else◌,
}
use vibehouse_backend.Exec.{Result, ok, err, ezee_error}
use vibehouse_backend.Worker.{EzeeRoom, Inserted, AssignedRoom}
use vibehouse_backend.Booking.Availability.{LiveRoom, PhysicalRoom}

pub record Connection : Type 0 where
  pub property_id : ℕ
  pub is_active : Bool
  pub hotel_code : ℕ
  pub api_key : ℕ
  pub api_endpoint : ℕ

abbrev pub connection_or : Option Connection → Result Connection
connection_or none = err ezee_error
connection_or (some c) = ok c

unfoldable pub get_connection : List Connection → ℕ → Result Connection
get_connection rows property =
    connection_or (find (λ c. c.property_id == property && c.is_active) rows)

-- `Array(nights).fill(value)`
unfoldable pub fill {ℓ} : {A : Type ℓ} → ℕ → A → List A
fill zero value = []
fill (suc n) value = value ∷ fill n value

-- An entry of Room_Details; the three rates have a value for each night, in rupees.
pub record RoomDetail : Type 0 where
  pub room : EzeeRoom
  pub baserate : List ℕ
  pub extradultrate : List ℕ
  pub extrachildrate : List ℕ

-- `Math.max(1, room.numberOfNights)`
abbrev pub at_least_one : ℕ → ℕ
at_least_one n = if leb n 1 then 1 else n

unfoldable pub room_detail : EzeeRoom → RoomDetail
room_detail room =
    let nights = at_least_one room.number_of_nights in
    record {
      room = room;
      baserate = fill nights ((room.rate_per_night + 50) / 100);
      extradultrate = fill nights 0;
      extrachildrate = fill nights 0;
    }

-- The answer to InsertBooking.
pub record InsertAnswer : Type 0 where
  pub has_error : Bool
  pub reservation_no : Option ℕ
  pub sub_reservation_nos : Option (List ℕ)

abbrev pub subs_of : Option (List ℕ) → List ℕ
subs_of none = []
subs_of (some subs) = subs

abbrev pub inserted_or : Option ℕ → Option (List ℕ) → Result Inserted
inserted_or none subs = err ezee_error
inserted_or (some number) subs =
    ok (record { reservation_no = number; sub_reservation_nos = subs_of subs })

unfoldable pub read_insert : InsertAnswer → Result Inserted
read_insert a =
    if a.has_error then err ezee_error else inserted_or a.reservation_no a.sub_reservation_nos

-- `data.result !== 'success'`
unfoldable pub read_process : (is_success : Bool) → Result (Unit {0})
read_process is_success = if is_success then ok tt else err ezee_error

-- The codes of `data.Errors ?? data.Error`, one or many; a code that is missing, and 0, is no error.
abbrev pub is_error_code : Option ℕ → Bool
is_error_code none = false
is_error_code (some code) = not (code == 0)

unfoldable pub check_kiosk_error : List (Option ℕ) → Result (Unit {0})
check_kiosk_error [] = ok tt
check_kiosk_error (code ∷ codes) =
    let rest = check_kiosk_error codes in if is_error_code code then err ezee_error else rest

-- A room type of RoomList, whose fields may be missing.
pub record RawLiveRoom : Type 0 where
  pub roomtypeunkid : ℕ
  pub roomtype_name : ℕ
  pub min_ava_rooms : Option ℕ
  pub avg_per_night_without_tax : Option ℕ
  pub roomrateunkid : Option ℕ
  pub ratetypeunkid : Option ℕ

pub data RoomListAnswer : Type 0 where
  not_an_array error_array : RoomListAnswer
  array : List RawLiveRoom → RoomListAnswer

abbrev pub or_zero : Option ℕ → ℕ
or_zero none = 0
or_zero (some n) = n

abbrev pub live_room : RawLiveRoom → LiveRoom
live_room r = record {
  room_type_id = r.roomtypeunkid;
  room_type_name = r.roomtype_name;
  availability = or_zero r.min_ava_rooms;
  rate_per_night = or_zero r.avg_per_night_without_tax;
  rate_plan_id = r.roomrateunkid;
  rate_type_id = r.ratetypeunkid;
}

unfoldable pub read_room_inventory : RoomListAnswer → Result (List LiveRoom)
read_room_inventory not_an_array = err ezee_error
read_room_inventory error_array = err ezee_error
read_room_inventory (array rooms) = ok (map live_room rooms)

-- A room of get_rooms: the list that `rooms` splits into.
pub record RawPhysicalRoom : Type 0 where
  pub room_id : ℕ
  pub room_name : ℕ
  pub rooms : Option (List ℕ)

abbrev pub count_of : Option (List ℕ) → ℕ
count_of none = 0
count_of (some []) = 0
count_of (some (r ∷ rs)) = suc (count_of (some rs))

abbrev pub physical_room_of : RawPhysicalRoom → PhysicalRoom
physical_room_of r = record {
  room_id = r.room_id;
  room_name = r.room_name;
  physical_rooms = count_of r.rooms;
}

unfoldable pub read_physical_rooms :
    (is_success : Bool) → Option (List RawPhysicalRoom) → Result (List PhysicalRoom)
read_physical_rooms false rooms = err ezee_error
read_physical_rooms true none = ok []
read_physical_rooms true (some rooms) = ok (map physical_room_of rooms)
