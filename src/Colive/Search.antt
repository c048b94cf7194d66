-- ===== src/Colive/Search.antt =====
-- `searchInventory`, `getPropertyDetail` and `getAddons`: the prices and the rooms that they show.
use vibehouse_backend.Common.{
  ℕ, ◌*◌, Bool, true, false, ◌&&◌, ◌||◌, Option, none, some, List, [], ◌∷◌, map, ◌==◌, leb, ltb,
  find, find_last, where_, if◌then◌else◌,
}
use vibehouse_backend.Exec.{pure, gets, or_throw, ◌>>=◌, ◌>>◌, property_not_found}
use vibehouse_backend.Colive.{
  ColiveAddon, ColiveRoom, RoomRate, Location, PropertyContent, Colive, ColiveServices, Stay,
  round_rupees,
}
use vibehouse_backend.Colive.Prices.{get_ezee_pricing, rate_of}

pub data StayType : Type 0 where
  solo couple remote : StayType

pub data InventoryState : Type 0 where
  available limited sold_out : InventoryState

unfoldable pub calc_inventory_state : ℕ → InventoryState
calc_inventory_state n = if n == 0 then sold_out else if leb n 2 then limited else available

-- `ezeeRoom?.ratePerNight ?? Number(base_price_per_night)`
abbrev pub rate_else_base : Option RoomRate → ℕ → ℕ
rate_else_base none base = base
rate_else_base (some r) base = r.rate_per_night

-- The configured price, or thirty nights.
abbrev pub monthly_price : Option ℕ → ℕ → ℕ
monthly_price none rate = round_rupees (rate * 30)
monthly_price (some price) rate = price

-- In a `Map` of the rates the last one of a room type stands.
abbrev pub mapped_rate : ColiveRoom → List RoomRate → Option RoomRate
mapped_rate option rates = elim option.ezee_room_type_id [
  | none ↦ none
  | some id ↦ find_last (λ r. r.room_type_id == id) rates
]

abbrev pub units : Option RoomRate → ℕ
units none = 0
units (some r) = r.availability

pub record PriceFrom : Type 0 where
  pub price : Option ℕ
  pub strike : Option ℕ

abbrev pub is_below : ℕ → Option ℕ → Bool
is_below price none = true
is_below price (some best) = ltb price best

-- One round of the loop: the strike price of a dearer room stays where the new one has none.
unfoldable pub take_cheaper : List RoomRate → PriceFrom → ColiveRoom → PriceFrom
take_cheaper rates best option =
    let rate = rate_else_base (mapped_rate option rates) option.base_price_per_night in
    let price = monthly_price option.colive_price_month rate in
    let strike = round_rupees (rate * 30) in
    if ltb 0 price && is_below price best.price
    then record {
      price = some price;
      strike = if ltb price strike then some strike else best.strike;
    }
    else best

unfoldable pub cheapest : List RoomRate → PriceFrom → List ColiveRoom → PriceFrom
cheapest rates best [] = best
cheapest rates best (option ∷ options) = cheapest rates (take_cheaper rates best option) options

-- `Math.min(...availabilities)`, 0 for none.
unfoldable pub least : List ℕ → ℕ
least [] = 0
least (n ∷ []) = n
least (n ∷ m ∷ ns) = let rest = least (m ∷ ns) in if leb n rest then n else rest

-- `(opt.max_guests ?? 1) >= 2`
abbrev pub takes_two : Option ℕ → Bool
takes_two none = false
takes_two (some n) = leb 2 n

unfoldable pub suits : StayType → ColiveRoom → Bool
suits solo option = true
suits couple option = takes_two option.max_guests
suits remote option = option.recommends_remote || option.recommends_none

pub record PropertyCard : Type 0 where
  pub property_id : ℕ
  pub price_from_monthly : ℕ
  pub strike_price_from_monthly : Option ℕ
  pub inventory_state : InventoryState

abbrev pub price_or_zero : Option ℕ → ℕ
price_or_zero none = 0
price_or_zero (some price) = round_rupees price

unfoldable pub property_card : StayType → ℕ → List ColiveRoom → List RoomRate → PropertyCard
property_card stay property options rates =
    let best = cheapest rates (record { price = none; strike = none }) options in
    record {
      property_id = property;
      price_from_monthly = price_or_zero best.price;
      strike_price_from_monthly = best.strike;
      inventory_state =
          calc_inventory_state (least (map (λ o. units (mapped_rate o rates)) options));
    }

abbrev pub options_of : ℕ → Colive → List ColiveRoom
options_of property s = where_ (λ o. o.property_id == property && o.is_active) s.room_options

-- A location that is not found gives an `undefined`, which Prisma takes for no condition.
abbrev pub at_location : Option Location → PropertyContent → Bool
at_location none content = true
at_location (some l) content = content.location_id == l.id

abbrev pub card_if : List ColiveRoom → PropertyCard → List PropertyCard → List PropertyCard
card_if [] card cards = cards
card_if (o ∷ os) card cards = card ∷ cards

pub record RoomCard : Type 0 where
  pub room_type_id : ℕ
  pub monthly_price : ℕ
  pub strike_monthly_price : Option ℕ
  pub available_units : ℕ

unfoldable pub room_card : List RoomRate → ColiveRoom → RoomCard
room_card rates option =
    let rate = rate_else_base (rate_of option rates) option.base_price_per_night in
    let price = monthly_price option.colive_price_month rate in
    let strike = round_rupees (rate * 30) in
    record {
      room_type_id = option.room_type_id;
      monthly_price = price;
      strike_monthly_price = if ltb price strike then some strike else none;
      available_units = units (rate_of option rates);
    }

-- Of the stay types only 'couple' hides rooms here.
abbrev pub shows : StayType → ColiveRoom → Bool
shows couple option = takes_two option.max_guests
shows _ option = true

module _ (env : ColiveServices) where
  unfoldable pub search_properties :
      StayType → (move_in move_out : ℕ) → List PropertyContent → Stay (List PropertyCard)
  unfolding ◌>>=◌
  search_properties stay move_in move_out [] = pure []
  search_properties stay move_in move_out (c ∷ cs) = do
    options ← gets (options_of c.property_id)
    rates ← get_ezee_pricing env c.property_id move_in move_out
    cards ← search_properties stay move_in move_out cs
    pure (
        card_if (where_ (suits stay) options) (property_card stay c.property_id options rates)
          cards)

  unfoldable pub search_inventory : (slug move_in months : ℕ) → StayType → Stay (List PropertyCard)
  unfolding ◌>>=◌
  search_inventory slug move_in months stay = do
    location ← gets (λ s. find (λ l. l.slug == slug && l.is_active) s.locations)
    contents ← gets (λ s. where_ (λ c. at_location location c && c.is_active) s.contents)
    search_properties stay move_in (env.add_months move_in months) contents

  unfoldable pub get_property_detail :
      (property move_in months : ℕ) → StayType → Stay (List RoomCard)
  unfolding ◌>>=◌
  get_property_detail property move_in months stay = do
    content ← gets (λ s. find (λ c. c.property_id == property && c.is_active) s.contents)
    or_throw content property_not_found
    rates ← get_ezee_pricing env property move_in (env.add_months move_in months)
    options ← gets (options_of property)
    pure (map (room_card rates) (where_ (shows stay) options))

unfoldable pub get_addons : ℕ → Stay (List ColiveAddon)
unfolding ◌>>=◌
get_addons property = gets (λ s. where_ (λ a. a.property_id == property && a.is_active) s.addons)
