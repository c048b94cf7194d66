-- ===== src/Booking/Availability/Catalog.antt =====
-- `getRoomCatalog`: the room types of a property, without dates.
use vibehouse_backend.Common.{
  ℕ, ◌+◌, Bool, true, false, ◌&&◌, Option, none, some, List, [], ◌∷◌, map, ◌==◌, leb, ltb, find,
  where_, delete_where, if◌then◌else◌,
}
use vibehouse_backend.Exec.{ok, pure, gets, throw, if_found, ◌>>=◌, ◌>>◌, property_not_found}
use vibehouse_backend.Booking.Availability.{
  RoomTypeDetail, PhysicalRoom, from_db, from_ezee, from_db_fallback, CatalogRoom, CachedCatalog,
  RoomServices, Read, is_offered, by_ezee_id, db_before,
}

-- Those without a price last.
abbrev pub price_before : Option ℕ → Option ℕ → Bool
price_before none b = false
price_before (some a) none = true
price_before (some a) (some b) = leb a b

abbrev pub room_before : CatalogRoom → CatalogRoom → Bool
room_before a b = price_before a.price_per_night b.price_per_night

abbrev pub db_room : RoomTypeDetail → CatalogRoom
db_room t = record {
  id = t.id;
  name = t.name;
  is_dorm = t.is_dorm;
  total_beds = t.total_beds;
  price_per_night = some t.base_price_per_night;
  ezee_room_type_id = t.ezee_room_type_id;
  physical_room_count = none;
  bookable_online = true;
  source = from_db_fallback;
}

module _ (env : RoomServices) where
  unfoldable pub physical_room : PhysicalRoom → Option RoomTypeDetail → CatalogRoom
  physical_room room none = record {
    id = room.room_id;
    name = room.room_name;
    is_dorm = env.named_dorm room.room_name;
    total_beds = room.physical_rooms;
    price_per_night = none;
    ezee_room_type_id = some room.room_id;
    physical_room_count = some room.physical_rooms;
    bookable_online = false;
    source = from_ezee;
  }
  physical_room room (some t) = record (db_room t) {
    ezee_room_type_id = some room.room_id;
    physical_room_count = some room.physical_rooms;
    source = from_db;
  }

  -- eZee's rooms; when it has none or cannot be reached, ours.
  unfoldable pub catalog_of : List RoomTypeDetail → List PhysicalRoom → Option (List CatalogRoom)
  catalog_of types (room ∷ rooms) = some (
      env.sort_catalog room_before
        (map (λ r. physical_room r (by_ezee_id types r.room_id)) (room ∷ rooms)))
  catalog_of [] [] = none
  catalog_of (t ∷ types) [] = some (map db_room (env.sort_types db_before (t ∷ types)))

  abbrev pub physical_rooms_of : Option (List PhysicalRoom) → List PhysicalRoom
  physical_rooms_of none = []
  physical_rooms_of (some rooms) = rooms

  -- `cache.set`, for ten minutes.
  unfoldable pub cache_catalog : ℕ → List CatalogRoom → Read (Unit {0})
  cache_catalog property answer s =
      let entry : CachedCatalog = record {
        property_id = property;
        answer = answer;
        expires_at = s.now + 600000;
      } in
      (
        ok tt,
        if env.redis_up s.now
            then record s {
              catalogs = entry ∷ delete_where (λ e. e.property_id == property) s.catalogs;
            }
            else s,
      )

  unfoldable pub get_room_catalog : ℕ → Read (List CatalogRoom)
  unfolding ◌>>=◌
  get_room_catalog property = do
    cached ← gets (λ s.
        find (λ e. e.property_id == property && ltb s.now e.expires_at && env.redis_up s.now)
          s.catalogs)
    if_found cached (λ e. pure e.answer)
        do
          answer ← gets (λ s. env.physical property s.now)
          types ← gets (λ s. where_ (is_offered property) s.types)
          if_found (catalog_of types (physical_rooms_of answer))
              (λ rooms. do cache_catalog property rooms; pure rooms) (throw property_not_found)
