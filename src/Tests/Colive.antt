-- ===== src/Tests/Colive.antt =====
-- A stay of 65 days with an addon, quoted, drafted, paid for and verified twice.
use vibehouse_backend.Common.{
  ◌≤◌, ◌≡◌, refl, true, none, some, List, [], ◌∷◌, Held, ◌⊎◌, find, where_, arith,
}
use vibehouse_backend.Exec.{err, ok, ◌>>=◌, addon_unknown, addon_unavailable}
use vibehouse_backend.Colive.{
  per_month, draft, ColiveAddon, ColiveRoom, ColiveQuote, confirmed, ColiveDraft, Colive,
  ColiveServices, draw_stay_uuid, set_quotes,
}
use vibehouse_backend.Colive.Prices.{get_rates, put_rates, get_ezee_pricing}
use vibehouse_backend.Colive.Quotes.{
  QuoteRequest, quote_records, new_quote, create_quote, create_draft_booking,
}
use vibehouse_backend.Colive.Requests.{
  ColiveRequest, quote_request, draft_request, order_request, verify_request, serve_colive,
}
use vibehouse_backend.Colive.Agreement.{create_draft_booking_lem}
use vibehouse_backend.Colive.Confirmed.{queued, serve_colive_once, serve_colive-Held}

abbrev room : ColiveRoom
room = record {
  id = 21;
  property_id = 1;
  room_type_id = 31;
  is_active = true;
  max_guests = some 2;
  recommends_none = true;
  recommends_remote = true;
  ezee_room_type_id = some 51;
  base_price_per_night = 90000;
  colive_price_month = some 2000000;
}

abbrev desk : ColiveAddon
desk = record {
  id = 41;
  property_id = 1;
  is_active = true;
  is_available = true;
  pricing_model = per_month;
  unit_price = 50000;
  max_quantity = some 1;
}

abbrev start : Colive
start = record {
  locations = [];
  contents = [];
  properties = 1 ∷ [];
  room_options = room ∷ [];
  room_prices = [];
  addons = desk ∷ [];
  quotes = [];
  drafts = [];
  cached = [];
  inserts = [];
  orders = [];
  now = 1000;
  drawn = 0;
}

abbrev env : ColiveServices
env = record {
  uuid = λ n. 700;
  order_id = λ n. some 900;
  signature = λ o p. 77;
  inventory = λ p a b now. none;
  redis_up = λ now. true;
  add_months = λ day months. day;
}

abbrev request : QuoteRequest
request = record {
  property_id = 1;
  room_type_id = 31;
  move_in_date = 100;
  duration_days = 65;
  addons = record { addon_id = 41; quantity = 3 } ∷ record { addon_id = 8; quantity = 0 } ∷ [];
  guest_id = some 7;
}

abbrev quote : ColiveQuote
quote = new_quote request room 2000000 (quote_records request start) 90000 700 1000

abbrev after_quote : Colive
after_quote = record start { quotes = quote ∷ []; now = 2000; drawn = 1 }

create_draft_booking_lem_example :
    let answer = (create_draft_booking env quote.id request after_quote).0 in
    (answer ≡ err addon_unknown)
    ⊎ ((answer ≡ err addon_unavailable)
        ⊎ ((d : ColiveDraft) × (answer ≡ ok d)
            × (d.charges ≡ quote.charges)
            × (d.addons ≡ quote.addons)))
unfolding find where_ new_quote create_quote get_ezee_pricing get_rates put_rates draw_stay_uuid
    set_quotes ◌>>=◌
create_draft_booking_lem_example =
    create_draft_booking_lem env request start after_quote quote refl refl refl refl refl
      (omega arith)

abbrev paid_twice : List ColiveRequest
paid_twice =
    quote_request request
    ∷ draft_request 700 request
    ∷ order_request 7 600 100
    ∷ verify_request 600 900 1 77
    ∷ verify_request 600 900 1 77
    ∷ []

abbrev booked : ColiveDraft
booked = record {
  id = 600;
  quote_id = 700;
  property_id = 1;
  guest_id = some 7;
  room_option_id = 21;
  room_type_id = 31;
  move_in_date = 100;
  estimated_checkout = 165;
  addons = [];
  charges = record { room_subtotal = 10; addon_subtotal = 0; tax_total = 0; grand_total = 10 };
  status = confirmed;
  razorpay_order_id = some 900;
  payment_id = some 5;
}

serve_colive_once_example :
    queued 600
      (serve_colive env paid_twice
        (record after_quote { drafts = record booked { status = draft } ∷ [] })).inserts
    ≤ 1
serve_colive_once_example =
    serve_colive_once 600 env paid_twice
      (record after_quote { drafts = record booked { status = draft } ∷ [] }) (λ n. omega arith)
      refl

serve_colive-Held_example :
    Held
      (λ d. d.id)
      booked
      (serve_colive env paid_twice (record after_quote { drafts = booked ∷ [] })).drafts
unfolding find
serve_colive-Held_example =
    serve_colive-Held booked refl env paid_twice (record after_quote { drafts = booked ∷ [] })
      (λ n. omega arith) (refl, (λ same. refl, tt))
