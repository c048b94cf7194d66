-- ===== src/Booking/Availability.antt =====
-- What `getRoomCatalog` and `getRoomAvailability` work on: the rooms of a property, without dates
-- and for a stay. Each is answered from the cache, from what eZee says with our prices, or, when eZee says
-- nothing, from our tables alone.
pub mod Stays
pub mod Catalog
pub mod Estimate
use vibehouse_backend.Common.{
  ℕ, ◌+◌, ◌-◌, ◌*◌, Bool, true, false, ◌&&◌, Option, none, some, List, [], ◌∷◌, ◌++◌, map, ◌==◌,
  leb, ltb, length, find, find_last, where_, delete_where, is_some, holds_id, if◌then◌else◌,
}
use vibehouse_backend.Exec.{
  Result, ok, pure, gets, lift, throw, if_found, Exec, ◌>>=◌, ◌>>◌, property_not_found,
}
use vibehouse_backend.Booking.Rooms.{parse_date_range}
use vibehouse_backend.Booking.Beds.{RoomBooking, RoomType, beds, get_booked_beds_map}

-- room_types; an id, a name and an eZee code are numbers, prices are in paise.
pub record RoomTypeDetail : Type 0 where
  pub id : ℕ
  pub name : ℕ
  pub property_id : ℕ
  pub is_active : Bool
  pub is_dorm : Bool
  pub total_beds : ℕ
  pub base_price_per_night : ℕ
  pub ezee_room_type_id : Option ℕ
  pub ezee_rate_plan_id : Option ℕ
  pub ezee_rate_type_id : Option ℕ

-- A room type in eZee's answer to RoomList; an empty code is `none`.
pub record LiveRoom : Type 0 where
  pub room_type_id : ℕ
  pub room_type_name : ℕ
  pub availability : ℕ
  pub rate_per_night : ℕ
  pub rate_plan_id : Option ℕ
  pub rate_type_id : Option ℕ

-- A room type in eZee's answer to get_rooms.
pub record PhysicalRoom : Type 0 where
  pub room_id : ℕ
  pub room_name : ℕ
  pub physical_rooms : ℕ

pub data StockLevel : Type 0 where
  available limited sold_out : StockLevel

abbrev pub stock_level : ℕ → StockLevel
stock_level n = if n == 0 then sold_out else if leb n 2 then limited else available

pub data Source : Type 0 where
  from_db from_ezee from_db_fallback : Source

pub record Offer : Type 0 where
  pub id : ℕ
  pub name : ℕ
  pub is_dorm : Bool
  pub available_beds : ℕ
  pub stock : StockLevel
  pub price_per_night : ℕ
  pub total_price : ℕ
  pub ezee_room_type_id : Option ℕ
  pub ezee_rate_plan_id : Option ℕ
  pub ezee_rate_type_id : Option ℕ
  pub bookable_online : Bool
  pub source : Source

-- `availability_source`, and the offers.
pub record Availability : Type 0 where
  pub is_live : Bool
  pub no_of_nights : ℕ
  pub offers : List Offer

pub record CatalogRoom : Type 0 where
  pub id : ℕ
  pub name : ℕ
  pub is_dorm : Bool
  pub total_beds : ℕ
  pub price_per_night : Option ℕ
  pub ezee_room_type_id : Option ℕ
  pub physical_room_count : Option ℕ
  pub bookable_online : Bool
  pub source : Source

pub record CachedStay : Type 0 where
  pub property_id : ℕ
  pub checkin : ℕ
  pub checkout : ℕ
  pub answer : Availability
  pub expires_at : ℕ

pub record CachedCatalog : Type 0 where
  pub property_id : ℕ
  pub answer : List CatalogRoom
  pub expires_at : ℕ

pub record Rooms : Type 0 where
  pub types : List RoomTypeDetail
  pub bookings : List RoomBooking
  pub stays : List CachedStay
  pub catalogs : List CachedCatalog
  pub now : ℕ

-- `sort` is `Array.prototype.sort` by a comparator that says whether the first goes before.
pub record RoomServices : Type 0 where
  pub inventory : (property_id checkin checkout now : ℕ) → Option (List LiveRoom)
  pub physical : (property_id now : ℕ) → Option (List PhysicalRoom)
  pub redis_up : (now : ℕ) → Bool
  pub named_dorm : (name : ℕ) → Bool
  pub sort_types :
      (RoomTypeDetail → RoomTypeDetail → Bool) → List RoomTypeDetail → List RoomTypeDetail
  pub sort_offers : (Offer → Offer → Bool) → List Offer → List Offer
  pub sort_catalog : (CatalogRoom → CatalogRoom → Bool) → List CatalogRoom → List CatalogRoom

abbrev pub Read {κ} : Type κ → Type κ
Read A = Exec Rooms A

abbrev pub is_offered : ℕ → RoomTypeDetail → Bool
is_offered property t = t.property_id == property && t.is_active

-- `dbByEzeeId.get(id)`: of a `Map` the last entry stands.
abbrev pub by_ezee_id : List RoomTypeDetail → ℕ → Option RoomTypeDetail
by_ezee_id types id = find_last (λ t. holds_id t.ezee_room_type_id id) types

-- `room.ratePerNight || (db ? base_price : 0)`
abbrev pub price_with : ℕ → ℕ → ℕ
price_with rate base = if rate == 0 then base else rate

abbrev pub code_or : Option ℕ → Option ℕ → Option ℕ
code_or none other = other
code_or (some code) other = some code

abbrev pub db_before : RoomTypeDetail → RoomTypeDetail → Bool
db_before a b = leb a.base_price_per_night b.base_price_per_night

-- Those without a price last.
abbrev pub offer_before : Offer → Offer → Bool
offer_before a b =
    if a.price_per_night == 0
    then false
    else if b.price_per_night == 0
    then true
    else leb a.price_per_night b.price_per_night

module _ (env : RoomServices) (nights : ℕ) where
  unfoldable pub live_offer : LiveRoom → Option RoomTypeDetail → Offer
  live_offer room none = record {
    id = room.room_type_id;
    name = room.room_type_name;
    is_dorm = env.named_dorm room.room_type_name;
    available_beds = room.availability;
    stock = stock_level room.availability;
    price_per_night = room.rate_per_night;
    total_price = room.rate_per_night * nights;
    ezee_room_type_id = some room.room_type_id;
    ezee_rate_plan_id = room.rate_plan_id;
    ezee_rate_type_id = room.rate_type_id;
    bookable_online = false;
    source = from_ezee;
  }
  live_offer room (some db) =
      let price = price_with room.rate_per_night db.base_price_per_night in
      record {
        id = db.id;
        name = db.name;
        is_dorm = db.is_dorm;
        available_beds = room.availability;
        stock = stock_level room.availability;
        price_per_night = price;
        total_price = price * nights;
        ezee_room_type_id = some room.room_type_id;
        ezee_rate_plan_id = code_or room.rate_plan_id db.ezee_rate_plan_id;
        ezee_rate_type_id = code_or room.rate_type_id db.ezee_rate_type_id;
        bookable_online = true;
        source = from_db;
      }

  unfoldable pub db_offer : List (ℕ × ℕ) → RoomTypeDetail → Offer
  db_offer booked t =
      let left = t.total_beds - beds booked t.id in
      record {
        id = t.id;
        name = t.name;
        is_dorm = t.is_dorm;
        available_beds = left;
        stock = stock_level left;
        price_per_night = t.base_price_per_night;
        total_price = t.base_price_per_night * nights;
        ezee_room_type_id = t.ezee_room_type_id;
        ezee_rate_plan_id = t.ezee_rate_plan_id;
        ezee_rate_type_id = t.ezee_rate_type_id;
        bookable_online = true;
        source = from_db_fallback;
      }

-- The two columns that `getBookedBedsMap` is given.
abbrev pub id_and_name : RoomTypeDetail → RoomType
id_and_name t = record { id = t.id; name = t.name }
