-- ===== src/Colive.antt =====
-- Long stays (src/guest/colive/colive.service.ts and the colive part of
-- src/payment/payment.service.ts): prices, quotes, draft bookings and their payment. A day, a
-- moment and a text are numbers; money is in paise.
pub mod Prices
pub mod Quotes
pub mod Payments
pub mod Search
pub mod Lines
pub mod Agreement
pub mod Requests
pub mod Confirmed
use vibehouse_backend.Common.{
  ℕ, suc, ◌+◌, ◌*◌, ◌/◌, Bool, true, false, Option, none, some, List, [], ◌∷◌, ◌++◌, ◌==◌,
  if◌then◌else◌,
}
use vibehouse_backend.Exec.{Exec, ok}

pub data PricingModel : Type 0 where
  per_month one_time : PricingModel

-- colive_addons
pub record ColiveAddon : Type 0 where
  pub id : ℕ
  pub property_id : ℕ
  pub is_active : Bool
  pub is_available : Bool
  pub pricing_model : PricingModel
  pub unit_price : ℕ
  pub max_quantity : Option ℕ

-- colive_room_options, joined with its room type.
pub record ColiveRoom : Type 0 where
  pub id : ℕ
  pub property_id : ℕ
  pub room_type_id : ℕ
  pub is_active : Bool
  pub max_guests : Option ℕ
  -- recommended_for: whether it is empty, and whether 'remote' is in it
  pub recommends_none : Bool
  pub recommends_remote : Bool
  pub ezee_room_type_id : Option ℕ
  pub base_price_per_night : ℕ
  pub colive_price_month : Option ℕ

-- What eZee says of a room type and a stay.
pub record RoomRate : Type 0 where
  pub room_type_id : ℕ
  pub availability : ℕ
  pub rate_per_night : ℕ

-- colive_locations and colive_property_content
pub record Location : Type 0 where
  pub id : ℕ
  pub slug : ℕ
  pub is_active : Bool

pub record PropertyContent : Type 0 where
  pub property_id : ℕ
  pub location_id : ℕ
  pub is_active : Bool

-- A line of addons_json.
pub record AddonLine : Type 0 where
  pub addon_id : ℕ
  pub quantity : ℕ
  pub unit_price : ℕ
  pub pricing_model : PricingModel
  pub line_total : ℕ

pub record Charges : Type 0 where
  pub room_subtotal : ℕ
  pub addon_subtotal : ℕ
  pub tax_total : ℕ
  pub grand_total : ℕ

-- colive_quotes
pub record ColiveQuote : Type 0 where
  pub id : ℕ
  pub property_id : ℕ
  pub guest_id : Option ℕ
  pub room_option_id : ℕ
  pub move_in_date : ℕ
  pub duration_days : ℕ
  pub addons : List AddonLine
  pub charges : Charges
  pub monthly_savings : ℕ
  pub total_savings : ℕ
  pub ezee_rate_per_night : ℕ
  pub expires_at : ℕ

-- colive_draft_bookings.status
pub data DraftStatus : Type 0 where
  draft pending_payment confirmed : DraftStatus

abbrev pub is_confirmed : DraftStatus → Bool
is_confirmed confirmed = true
is_confirmed _ = false

pub record ColiveDraft : Type 0 where
  pub id : ℕ
  pub quote_id : ℕ
  pub property_id : ℕ
  pub guest_id : Option ℕ
  pub room_option_id : ℕ
  pub room_type_id : ℕ
  pub move_in_date : ℕ
  pub estimated_checkout : ℕ
  pub addons : List AddonLine
  pub charges : Charges
  pub status : DraftStatus
  pub razorpay_order_id : Option ℕ
  pub payment_id : Option ℕ

-- A room type's row, for the rate of a booking whose quote has none.
pub record RoomPrice : Type 0 where
  pub id : ℕ
  pub base_price_per_night : ℕ

-- `sendEzeeInsertColiveBooking`
pub record ColiveInsert : Type 0 where
  pub draft_booking_id : ℕ
  pub property_id : ℕ
  pub room_type_id : ℕ
  pub move_in_date : ℕ
  pub move_out_date : ℕ
  pub rate_per_night : ℕ
  pub total_nights : ℕ
  pub amount : ℕ

-- An entry of the cache: the key, the value, and when it expires.
pub record CachedRates : Type 0 where
  pub property_id : ℕ
  pub checkin : ℕ
  pub checkout : ℕ
  pub rates : List RoomRate
  pub expires_at : ℕ

pub record Colive : Type 0 where
  pub locations : List Location
  pub contents : List PropertyContent
  pub properties : List ℕ
  pub room_options : List ColiveRoom
  pub room_prices : List RoomPrice
  pub addons : List ColiveAddon
  pub quotes : List ColiveQuote
  pub drafts : List ColiveDraft
  pub cached : List CachedRates
  -- the queue of the eZee worker
  pub inserts : List ColiveInsert
  -- the amounts of the orders at Razorpay
  pub orders : List ℕ
  -- the clock in milliseconds, and how many uuids have been drawn
  pub now : ℕ
  pub drawn : ℕ

-- What the services outside answer: uuids and Razorpay by the number of the call, eZee and Redis
-- by the time.
pub record ColiveServices : Type 0 where
  pub uuid : ℕ → ℕ
  pub order_id : ℕ → Option ℕ
  pub signature : (order_id payment_id : ℕ) → ℕ
  pub inventory : (property_id checkin checkout now : ℕ) → Option (List RoomRate)
  pub redis_up : (now : ℕ) → Bool
  -- `Date.setMonth`
  pub add_months : (day months : ℕ) → ℕ

abbrev pub Stay {κ} : Type κ → Type κ
Stay A = Exec Colive A

-- Money to the nearest rupee: `Math.round`.
abbrev pub round_rupees : ℕ → ℕ
round_rupees paise = 100 * ((paise + 50) / 100)

module _ (env : ColiveServices) where
  unfoldable pub draw_stay_uuid : Stay ℕ
  draw_stay_uuid s = (ok (env.uuid s.drawn), record s { drawn = suc s.drawn })

unfoldable pub set_quotes : (List ColiveQuote → List ColiveQuote) → Stay (Unit {0})
set_quotes f s = (ok tt, record s { quotes = f s.quotes })

unfoldable pub set_drafts : (List ColiveDraft → List ColiveDraft) → Stay (Unit {0})
set_drafts f s = (ok tt, record s { drafts = f s.drafts })
