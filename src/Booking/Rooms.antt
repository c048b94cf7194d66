-- ===== src/Booking/Rooms.antt =====
-- The dates and the room selections of a booking request: `parseDateRange` and
-- `validateRoomSelections`. A date is a number of milliseconds, `none` a text that is missing or
-- that `new Date` does not read; prices are in paise.
pub mod Quotes
use vibehouse_backend.Common.{
  ℕ, ◌+◌, ◌-◌, ◌*◌, ◌/◌, Bool, false, not, Option, none, some, List, [], ◌∷◌, ◌++◌, ltb, leb, ◌==◌,
  if◌then◌else◌, find, sum_of,
}
use vibehouse_backend.Exec.{Result, ok, err, bad_request, room_type_not_found}

abbrev pub day_ms : ℕ
day_ms = 1000 * 60 * 60 * 24

-- `Math.ceil(ms / day)`
abbrev pub nights_between : ℕ → ℕ → ℕ
nights_between checkin checkout = (checkout - checkin + (day_ms - 1)) / day_ms

unfoldable pub parse_date_range : Option ℕ → Option ℕ → Result (ℕ × ℕ × ℕ)
parse_date_range none checkout = err bad_request
parse_date_range (some checkin) none = err bad_request
parse_date_range (some checkin) (some checkout) =
    if leb checkout checkin
    then err bad_request
    else ok (checkin, checkout, nights_between checkin checkout)

-- One of `availableRooms`.
pub record RoomOption : Type 0 where
  pub id : ℕ
  pub available_beds : ℕ
  pub base_price_per_night : ℕ

-- `guests` is the length of the optional array.
pub record RoomSelection : Type 0 where
  pub room_type_id : ℕ
  pub quantity : ℕ
  pub guests : Option ℕ

pub record ValidatedRoom : Type 0 where
  pub room_type : RoomOption
  pub quantity : ℕ
  pub line_total : ℕ

pub record RoomTotals : Type 0 where
  pub validated_rooms : List ValidatedRoom
  pub room_total : ℕ
  pub total_guests : ℕ

abbrev pub mismatched : Option ℕ → ℕ → Bool
mismatched none quantity = false
mismatched (some n) quantity = not (n == quantity)

abbrev pub totals : List ValidatedRoom → ℕ → ℕ → RoomTotals
totals rooms total guests = record {
  validated_rooms = rooms;
  room_total = total;
  total_guests = guests;
}

-- The loop, over `roomTotal`, `totalGuests` and `validatedRooms`.
unfoldable pub check_rooms :
    (nights : ℕ) → List RoomOption → List RoomSelection → (t : RoomTotals) → Result RoomTotals
check_rooms nights rooms [] t = ok t
check_rooms nights rooms (sel ∷ sels) t = elim (find (λ r. r.id == sel.room_type_id) rooms) [
  | none ↦ err room_type_not_found
  | some rt ↦
      if ltb rt.available_beds sel.quantity
      then err bad_request
      else if mismatched sel.guests sel.quantity
      then err bad_request
      else let line = rt.base_price_per_night * nights * sel.quantity in
        check_rooms nights rooms sels (
          totals
            (t.validated_rooms
              ++ record { room_type = rt; quantity = sel.quantity; line_total = line } ∷ [])
            (t.room_total + line) (t.total_guests + sel.quantity))
]

unfoldable pub validate_room_selections :
    List RoomSelection → List RoomOption → ℕ → Result RoomTotals
unfolding check_rooms
validate_room_selections selections rooms nights =
    if ltb 6 (sum_of (λ s. s.quantity) selections)
    then err bad_request
    else check_rooms nights rooms selections (totals [] 0 0)
