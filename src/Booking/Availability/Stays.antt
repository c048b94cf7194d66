-- ===== src/Booking/Availability/Stays.antt =====
-- `getRoomAvailability`: the rooms for a stay.
use vibehouse_backend.Common.{
  ℕ, ◌+◌, Bool, ◌&&◌, Option, none, some, List, [], ◌∷◌, map, ◌==◌, ltb, find, where_, delete_where,
  is_some, if◌then◌else◌,
}
use vibehouse_backend.Exec.{ok, pure, gets, lift, throw, if_found, ◌>>=◌, ◌>>◌, property_not_found}
use vibehouse_backend.Booking.Rooms.{parse_date_range}
use vibehouse_backend.Booking.Beds.{RoomBooking, get_booked_beds_map}
use vibehouse_backend.Booking.Availability.{
  RoomTypeDetail, LiveRoom, Offer, Availability, CachedStay, RoomServices, Read, is_offered,
  by_ezee_id, db_before, offer_before, live_offer, db_offer, id_and_name,
}

module _ (env : RoomServices) where
  abbrev pub is_live_stay : (property checkin checkout now : ℕ) → CachedStay → Bool
  is_live_stay property checkin checkout now e =
      e.property_id == property
      && e.checkin == checkin
      && e.checkout == checkout
      && ltb now e.expires_at
      && env.redis_up now

  abbrev pub is_stay : (property checkin checkout : ℕ) → CachedStay → Bool
  is_stay property checkin checkout e =
      e.property_id == property && e.checkin == checkin && e.checkout == checkout

  -- `cache.set`, for 30 minutes.
  unfoldable pub cache_stay : (property checkin checkout : ℕ) → Availability → Read (Unit {0})
  cache_stay property checkin checkout answer s =
      let entry : CachedStay = record {
        property_id = property;
        checkin = checkin;
        checkout = checkout;
        answer = answer;
        expires_at = s.now + 1800000;
      } in
      (
        ok tt,
        if env.redis_up s.now
            then record s {
              stays = entry ∷ delete_where (is_stay property checkin checkout) s.stays;
            }
            else s,
      )

  unfoldable pub offers_from_db :
      (property checkin checkout nights : ℕ) → List RoomTypeDetail → List RoomBooking → List Offer
  offers_from_db property checkin checkout nights types bookings =
      let booked = get_booked_beds_map property checkin checkout (map id_and_name types) bookings in
      map (db_offer env nights booked) (env.sort_types db_before types)

  -- The three branches, for eZee's answer; its exception is `none`, and no rooms are no answer.
  unfoldable pub offers_of :
      (property checkin checkout nights : ℕ)
      → List RoomTypeDetail
      → List RoomBooking
      → List LiveRoom
      → Option (List Offer)
  offers_of property checkin checkout nights types bookings (room ∷ rooms) = some (
      env.sort_offers offer_before
        (map (λ r. live_offer env nights r (by_ezee_id types r.room_type_id)) (room ∷ rooms)))
  offers_of property checkin checkout nights [] bookings [] = none
  offers_of property checkin checkout nights (t ∷ types) bookings [] =
      some (offers_from_db property checkin checkout nights (t ∷ types) bookings)

  abbrev pub live_rooms : Option (List LiveRoom) → List LiveRoom
  live_rooms none = []
  live_rooms (some rooms) = rooms

  unfoldable pub compute_availability : (property checkin checkout nights : ℕ) → Read Availability
  unfolding ◌>>=◌
  compute_availability property checkin checkout nights = do
    types ← gets (λ s. where_ (is_offered property) s.types)
    bookings ← gets (λ s. s.bookings)
    answer ← gets (λ s. env.inventory property checkin checkout s.now)
    if_found (offers_of property checkin checkout nights types bookings (live_rooms answer))
        (λ offers. do
          let result : Availability = record {
            is_live = is_some answer;
            no_of_nights = nights;
            offers = offers;
          }
          cache_stay property checkin checkout result
          pure result)
        (throw property_not_found)

  unfoldable pub get_room_availability : (property checkin checkout : ℕ) → Read Availability
  unfolding ◌>>=◌
  get_room_availability property checkin checkout = do
    cached ← gets (λ s. find (is_live_stay property checkin checkout s.now) s.stays)
    if_found cached (λ e. pure e.answer)
        do
          dates ← lift (parse_date_range (some checkin) (some checkout))
          compute_availability property checkin checkout dates.2
