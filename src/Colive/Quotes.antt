-- ===== src/Colive/Quotes.antt =====
-- `createQuote`, `createDraftBooking` and the gate of `getBookingDetail`.
use vibehouse_backend.Common.{
  ℕ, ◌+◌, ◌-◌, ◌*◌, ◌/◌, Bool, false, ◌&&◌, not, Option, none, some, List, [], ◌∷◌, ◌++◌, ◌==◌, ltb,
  find, where_, if◌then◌else◌,
}
use vibehouse_backend.Exec.{
  pure, gets, lift, or_throw, throw_if, ◌>>=◌, ◌>>◌, property_not_found, room_type_not_found,
  bad_request, quote_not_found, quote_expired, draft_not_found,
}
use vibehouse_backend.Colive.{
  ColiveAddon, ColiveRoom, AddonLine, Charges, ColiveQuote, draft, ColiveDraft, Colive,
  ColiveServices, Stay, round_rupees, draw_stay_uuid, set_quotes, set_drafts,
}
use vibehouse_backend.Colive.Prices.{
  get_ezee_pricing, rate_of, rate_or_base, room_line_total, tax_on, AddonInput, addon_records,
  quote_lines, draft_lines, lines_total,
}

-- What a quote and a draft ask for, and the guest who asks.
pub record QuoteRequest : Type 0 where
  pub property_id : ℕ
  pub room_type_id : ℕ
  pub move_in_date : ℕ
  pub duration_days : ℕ
  pub addons : List AddonInput
  pub guest_id : Option ℕ

abbrev pub has_property : ℕ → Colive → Option ℕ
has_property id s = find (λ p. p == id) s.properties

abbrev pub room_option_of : QuoteRequest → Colive → Option ColiveRoom
room_option_of r s =
    find (λ o. o.property_id == r.property_id && o.room_type_id == r.room_type_id && o.is_active)
      s.room_options

abbrev pub charges_of : ℕ → ℕ → ℕ → Charges
charges_of room addons tax = record {
  room_subtotal = room;
  addon_subtotal = addons;
  tax_total = tax;
  grand_total = room + addons + tax;
}

-- The rows of the addons that a quote reads.
abbrev pub quote_records : QuoteRequest → Colive → List ColiveAddon
quote_records r s = addon_records s.addons r.property_id r.addons

unfoldable pub new_quote :
    QuoteRequest → ColiveRoom → ℕ → List ColiveAddon → (rate id now : ℕ) → ColiveQuote
new_quote r option monthly records rate id now =
    let months = r.duration_days / 30 in
    let room = room_line_total r.duration_days monthly rate in
    let lines = quote_lines records months r.addons in
    let savings = round_rupees (rate * r.duration_days) - room in
    record {
      id = id;
      property_id = r.property_id;
      guest_id = r.guest_id;
      room_option_id = option.id;
      move_in_date = r.move_in_date;
      duration_days = r.duration_days;
      addons = lines;
      charges = charges_of room (lines_total lines) (tax_on (room + lines_total lines));
      monthly_savings = if months == 0 then 0 else round_rupees (savings / months);
      total_savings = savings;
      ezee_rate_per_night = rate;
      expires_at = now + 1800000;
    }

abbrev pub new_draft :
    QuoteRequest → ColiveQuote → ColiveRoom → List AddonLine → (id : ℕ) → ColiveDraft
new_draft r quote option lines id = record {
  id = id;
  quote_id = quote.id;
  property_id = r.property_id;
  guest_id = r.guest_id;
  room_option_id = option.id;
  room_type_id = r.room_type_id;
  move_in_date = r.move_in_date;
  estimated_checkout = r.move_in_date + r.duration_days;
  addons = lines;
  charges = charges_of quote.charges.room_subtotal (lines_total lines) quote.charges.tax_total;
  status = draft;
  razorpay_order_id = none;
  payment_id = none;
}

-- The rows that a draft reads: no addon whose quantity is 0 is asked for.
abbrev pub draft_records : QuoteRequest → Colive → List ColiveAddon
draft_records r s = addon_records s.addons r.property_id (where_ (λ i. ltb 0 i.quantity) r.addons)

abbrev pub find_quote : ℕ → Colive → Option ColiveQuote
find_quote id s = find (λ q. q.id == id) s.quotes

abbrev pub find_stay : ℕ → Colive → Option ColiveDraft
find_stay id s = find (λ d. d.id == id) s.drafts

-- `guestId && draft.guest_id && draft.guest_id !== guestId`
abbrev pub differ : Option ℕ → Option ℕ → Bool
differ none owner = false
differ (some guest) none = false
differ (some guest) (some owner) = not (owner == guest)

module _ (env : ColiveServices) where
  unfoldable pub create_quote : QuoteRequest → Stay ColiveQuote
  unfolding ◌>>=◌
  create_quote r = do
    property ← gets (has_property r.property_id)
    or_throw property property_not_found
    found ← gets (room_option_of r)
    option ← or_throw found room_type_not_found
    monthly ← or_throw option.colive_price_month bad_request
    rates ← get_ezee_pricing env r.property_id r.move_in_date (r.move_in_date + r.duration_days)
    records ← gets (quote_records r)
    id ← draw_stay_uuid env
    now ← gets (λ s. s.now)
    let rate = rate_or_base (rate_of option rates) option.base_price_per_night
    let quote = new_quote r option monthly records rate id now
    set_quotes λ rows. rows ++ quote ∷ []
    pure quote

  unfoldable pub create_draft_booking : (quote_id : ℕ) → QuoteRequest → Stay ColiveDraft
  unfolding ◌>>=◌
  create_draft_booking quote_id r = do
    found ← gets (find_quote quote_id)
    quote ← or_throw found quote_not_found
    late ← gets (λ s. ltb quote.expires_at s.now)
    throw_if late quote_expired
    option ← gets (room_option_of r)
    option' ← or_throw option room_type_not_found
    property ← gets (has_property r.property_id)
    or_throw property property_not_found
    records ← gets (draft_records r)
    lines ← lift (draft_lines records (r.duration_days / 30) r.addons)
    id ← draw_stay_uuid env
    let row = new_draft r quote option' lines id
    set_drafts λ rows. rows ++ row ∷ []
    pure row

unfoldable pub get_booking_detail : ℕ → Option ℕ → Stay ColiveDraft
unfolding ◌>>=◌
get_booking_detail id guest = do
  found ← gets (find_stay id)
  row ← or_throw found draft_not_found
  throw_if (differ guest row.guest_id) draft_not_found
  pure row
