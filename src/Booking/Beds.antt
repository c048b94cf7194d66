-- ===== src/Booking/Beds.antt =====
-- `getBookedBedsMap`: how many beds of each room type are taken between two dates.
use vibehouse_backend.Common.{
  All, ◌≢◌, ℕ, ◌+◌, Bool, false, ◌&&◌, Option, none, some, List, [], ◌∷◌, ◌==◌, ltb, holds_id, find,
  where_, if◌then◌else◌,
}

-- A cached booking, with the columns that are read; `is_current` stands for the two statuses.
pub record RoomBooking : Type 0 where
  pub property_id : ℕ
  pub is_current : Bool
  pub is_active : Bool
  pub room_type_name : Option ℕ
  pub no_of_guests : Option ℕ
  pub checkin_date : Option ℕ
  pub checkout_date : Option ℕ

pub record RoomType : Type 0 where
  pub id : ℕ
  pub name : ℕ

-- `lt` and `gt` on a column that may be null.
abbrev pub is_before : Option ℕ → ℕ → Bool
is_before none d = false
is_before (some c) d = ltb c d

abbrev pub is_after : Option ℕ → ℕ → Bool
is_after none d = false
is_after (some c) d = ltb d c

abbrev pub counts : ℕ → RoomBooking → Bool
counts property b = b.property_id == property && b.is_current && b.is_active

abbrev pub overlaps : (property checkin checkout : ℕ) → RoomBooking → Bool
overlaps property checkin checkout b =
    counts property b && (is_before b.checkin_date checkout && is_after b.checkout_date checkin)

-- `b.no_of_guests ?? 1`
abbrev pub guests_of : RoomBooking → ℕ
guests_of b = elim b.no_of_guests [ none ↦ 1 | some n ↦ n ]

abbrev pub type_of : List RoomType → RoomBooking → Option RoomType
type_of types b = find (λ r. holds_id b.room_type_name r.name) types

-- `map.get(id) ?? 0`, on the entries from the latest on.
unfoldable pub beds : List (ℕ × ℕ) → ℕ → ℕ
beds [] id = 0
beds (e ∷ m) id = let older = beds m id in if e.0 == id then e.1 else older

-- `if (rt) map.set(…)`
abbrev pub add_beds : List (ℕ × ℕ) → RoomBooking → Option RoomType → List (ℕ × ℕ)
add_beds m b none = m
add_beds m b (some rt) = (rt.id, beds m rt.id + guests_of b) ∷ m

unfoldable pub count_bookings : List RoomType → List (ℕ × ℕ) → List RoomBooking → List (ℕ × ℕ)
count_bookings types m [] = m
count_bookings types m (b ∷ bs) = count_bookings types (add_beds m b (type_of types b)) bs

unfoldable pub get_booked_beds_map :
    (property checkin checkout : ℕ) → List RoomType → List RoomBooking → List (ℕ × ℕ)
get_booked_beds_map property checkin checkout types rows =
    count_bookings types [] (where_ (overlaps property checkin checkout) rows)

-- A booking on its own, apart from the query and the map: how many guests of the property it brings
-- to the rooms under a name between two dates. One without a number of guests brings one.
abbrev heads : Option ℕ → ℕ
heads none = 1
heads (some n) = n

abbrev stays : Option ℕ → Option ℕ → Option ℕ → (name from to : ℕ) → Bool
stays (some n) (some a) (some z) name from to = n == name && (ltb a to && ltb from z)
stays _ _ _ name from to = false

abbrev pub guests_between : (property name from to : ℕ) → RoomBooking → ℕ
guests_between property name from to b =
    if b.property_id == property
      && b.is_current
      && b.is_active
      && stays b.room_type_name b.checkin_date b.checkout_date name from to
    then heads b.no_of_guests
    else 0

abbrev Apart : RoomType → RoomType → Type 0
Apart t u = (u.name ≢ t.name) × (u.id ≢ t.id)

-- No two room types share a name or an id.
abbrev pub Distinct : List RoomType → Type 0
Distinct [] = Unit
Distinct (t ∷ ts) = All (Apart t) ts × Distinct ts

-- What a booking adds to the entry of the room type `id`.
abbrev share : (id guests : ℕ) → Option RoomType → ℕ
share id guests none = 0
share id guests (some rt) = if rt.id == id then guests else 0

abbrev name_in : List RoomType → Option ℕ → Option RoomType
name_in types o = find (λ r. holds_id o r.name) types
