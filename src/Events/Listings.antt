-- ===== src/Events/Listings.antt =====
-- The listings of the events, and that the public ones miss no event.
use vibehouse_backend.Common.{
  ℕ, ◌+◌, ◌≡◌, refl, Bool, true, false, ◌&&◌, List, [], ◌∷◌, map, ◌==◌, leb, length, find, where_,
  if◌then◌else◌, Bool-cases, inl, inr, arith,
}
use vibehouse_backend.Exec.{pure, gets, or_throw, ◌>>=◌, item_not_found}
use vibehouse_backend.Events.{HotelEvent, Change, find_event}

pub record ListedEvent : Type 0 where
  pub event : HotelEvent
  pub is_upcoming : Bool

-- `today` is the day at midnight.
abbrev pub is_upcoming_on : ℕ → HotelEvent → Bool
is_upcoming_on today e = leb today e.date

abbrev pub listed : ℕ → HotelEvent → ListedEvent
listed today e = record { event = e; is_upcoming = is_upcoming_on today e }

pub data EventFilter : Type 0 where
  upcoming past every_event : EventFilter

abbrev pub passes : EventFilter → ℕ → HotelEvent → Bool
passes upcoming today e = is_upcoming_on today e
passes past today e = if is_upcoming_on today e then false else true
passes every_event today e = true

-- The order of `orderBy` is the table's here.
unfoldable pub list_events : (property today : ℕ) → Change (List ListedEvent)
unfolding ◌>>=◌
list_events property today =
    gets (λ s. map (listed today) (where_ (λ e. e.property_id == property) s.events))

unfoldable pub get_event : (id today : ℕ) → Change ListedEvent
unfolding ◌>>=◌
get_event id today = do
  found ← gets (find_event id)
  e ← or_throw found item_not_found
  pure (listed today e)

abbrev pub public_rows : (property today : ℕ) → EventFilter → List HotelEvent → List HotelEvent
public_rows property today filter rows =
    where_ (λ e. (e.property_id == property && e.is_active) && passes filter today e) rows

unfoldable pub list_public_events : (property today : ℕ) → EventFilter → Change (List ListedEvent)
unfolding ◌>>=◌
list_public_events property today filter =
    gets (λ s. map (listed today) (public_rows property today filter s.events))

unfoldable pub get_public_event : (id today : ℕ) → Change ListedEvent
unfolding ◌>>=◌
get_public_event id today = do
  found ← gets (λ s. find (λ e. e.id == id && e.is_active) s.events)
  e ← or_throw found item_not_found
  pure (listed today e)

-- Every active event of a property is in exactly one of the public listings.
public_rows_split :
    (property today : ℕ) (rows : List HotelEvent)
    → length (public_rows property today upcoming rows)
        + length (public_rows property today past rows)
      ≡ length (public_rows property today every_event rows)
unfolding where_
public_rows_split property today [] = refl
public_rows_split property today (e ∷ rows) =
    let ih = public_rows_split property today rows in
    elim (Bool-cases (e.property_id == property && e.is_active)) [
      | inr other ↦ simp other ih
      | inl own ↦ elim (Bool-cases (is_upcoming_on today e)) [
        | inl soon ↦ simp (own, soon) (omega arith)
        | inr gone ↦ simp (own, gone) (omega arith)
      ]
    ]
