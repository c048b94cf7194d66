-- ===== src/Colive/Prices.antt =====
-- `getEzeePricing`, the formula for the room, and the lines of the addons.
use vibehouse_backend.Common.{
  ℕ, ◌+◌, ◌*◌, ◌/◌, ◌%◌, Bool, ◌&&◌, Option, none, some, List, [], ◌∷◌, ◌==◌, leb, ltb, find,
  where_, delete_where, sum_of, is_some, if◌then◌else◌,
}
use vibehouse_backend.Exec.{
  Result, ok, err, pure, gets, if_found, ◌>>=◌, ◌>>◌, addon_unknown, addon_unavailable,
}
use vibehouse_backend.Colive.{
  PricingModel, per_month, one_time, ColiveAddon, ColiveRoom, RoomRate, AddonLine, CachedRates,
  ColiveServices, Stay, round_rupees,
}

abbrev pub is_key : ℕ → ℕ → ℕ → CachedRates → Bool
is_key property checkin checkout e =
    e.property_id == property && e.checkin == checkin && e.checkout == checkout

-- `cache.get`: nothing when Redis is down.
unfoldable pub get_rates : ColiveServices → ℕ → ℕ → ℕ → Stay (Option (List RoomRate))
unfolding ◌>>=◌
get_rates env property checkin checkout = do
  found ← gets (λ s.
      find (λ e. is_key property checkin checkout e && ltb s.now e.expires_at && env.redis_up s.now)
        s.cached)
  if_found found (λ e. pure (some e.rates)) (pure none)

-- `cache.set`; the code gives 30 * 60, and the cache takes milliseconds.
unfoldable pub put_rates : ColiveServices → ℕ → ℕ → ℕ → List RoomRate → Stay (Unit {0})
put_rates env property checkin checkout rates s =
    let entry : CachedRates = record {
      property_id = property;
      checkin = checkin;
      checkout = checkout;
      rates = rates;
      expires_at = s.now + 1800;
    } in
    (
      ok tt,
      if env.redis_up s.now
          then record s {
            cached = entry ∷ delete_where (is_key property checkin checkout) s.cached;
          }
          else s,
    )

module _ (env : ColiveServices) where
  -- An exception of eZee is no rates, and not cached.
  unfoldable pub get_ezee_pricing : ℕ → ℕ → ℕ → Stay (List RoomRate)
  unfolding ◌>>=◌
  get_ezee_pricing property checkin checkout = do
    cached ← get_rates env property checkin checkout
    if_found cached pure do
      answer ← gets (λ s. env.inventory property checkin checkout s.now)
      if_found answer (λ rates. do put_rates env property checkin checkout rates; pure rates)
          (pure [])

-- `rates.find((r) => r.roomTypeId === opt.room_types.ezee_room_type_id)`
abbrev pub rate_of : ColiveRoom → List RoomRate → Option RoomRate
rate_of option rates = elim option.ezee_room_type_id [
  | none ↦ none
  | some id ↦ find (λ r. r.room_type_id == id) rates
]

-- `ezeeRoom?.ratePerNight || Number(base_price_per_night)`
abbrev pub rate_or_base : Option RoomRate → ℕ → ℕ
rate_or_base none base = base
rate_or_base (some r) base = if r.rate_per_night == 0 then base else r.rate_per_night

unfoldable pub room_line_total : (duration_days monthly rate_per_night : ℕ) → ℕ
room_line_total days monthly rate = round_rupees (days / 30 * monthly + days % 30 * rate)

-- 5% GST on whole paise, to the nearest rupee.
unfoldable pub tax_on : ℕ → ℕ
tax_on subtotal = 100 * ((subtotal * 5 + 5000) / 10000)

pub record AddonInput : Type 0 where
  pub addon_id : ℕ
  pub quantity : ℕ

abbrev pub at_most : ℕ → Option ℕ → ℕ
at_most quantity none = quantity
at_most quantity (some most) = if leb quantity most then quantity else most

abbrev pub for_months : PricingModel → ℕ → ℕ → ℕ
for_months per_month months price = price * months
for_months one_time months price = price

abbrev pub stay_addon_line : ℕ → ColiveAddon → ℕ → AddonLine
stay_addon_line months addon quantity =
    let qty = at_most quantity addon.max_quantity in
    record {
      addon_id = addon.id;
      quantity = qty;
      unit_price = addon.unit_price;
      pricing_model = addon.pricing_model;
      line_total = for_months addon.pricing_model months (addon.unit_price * qty);
    }

-- The `findMany` of the addons that are named, and the `find` in its answer.
abbrev pub names : List AddonInput → ℕ → Bool
names inputs id = is_some (find (λ i. i.addon_id == id) inputs)

abbrev pub addon_records : List ColiveAddon → ℕ → List AddonInput → List ColiveAddon
addon_records addons property inputs =
    where_ (λ a. names inputs a.id && a.property_id == property && a.is_active) addons

abbrev pub record_of : List ColiveAddon → AddonInput → Option ColiveAddon
record_of records input = find (λ a. a.id == input.addon_id) records

abbrev pub quote_line : Option ColiveAddon → ℕ → ℕ → List AddonLine → List AddonLine
quote_line none months quantity rest = rest
quote_line (some addon) months quantity rest =
    if addon.is_available then stay_addon_line months addon quantity ∷ rest else rest

-- The loop of the quote: what is unknown or unavailable is passed over.
unfoldable pub quote_lines : List ColiveAddon → ℕ → List AddonInput → List AddonLine
quote_lines records months [] = []
quote_lines records months (i ∷ is) =
    let rest = quote_lines records months is in
    if i.quantity == 0 then rest else quote_line (record_of records i) months i.quantity rest

abbrev pub with_line : AddonLine → Result (List AddonLine) → Result (List AddonLine)
with_line line (err e) = err e
with_line line (ok lines) = ok (line ∷ lines)

abbrev pub draft_line :
    Option ColiveAddon → ℕ → ℕ → Result (List AddonLine) → Result (List AddonLine)
draft_line none months quantity rest = err addon_unknown
draft_line (some addon) months quantity rest =
    if addon.is_available
    then with_line (stay_addon_line months addon quantity) rest
    else err addon_unavailable

-- The loop of the draft: what is unknown or unavailable is refused.
unfoldable pub draft_lines : List ColiveAddon → ℕ → List AddonInput → Result (List AddonLine)
draft_lines records months [] = ok []
draft_lines records months (i ∷ is) =
    let rest = draft_lines records months is in
    if i.quantity == 0 then rest else draft_line (record_of records i) months i.quantity rest

abbrev pub lines_total : List AddonLine → ℕ
lines_total lines = sum_of (λ l. l.line_total) lines
