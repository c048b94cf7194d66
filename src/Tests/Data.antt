-- ===== src/Tests/Data.antt =====
-- One property with three products in stock, and a confirmed booking of guest 7.
use vibehouse_backend.Common.{ℕ, ◌+◌, true, false, none, some, [], ◌∷◌}
use vibehouse_backend.Common.Int.{pos}
use vibehouse_backend.Tables.{
  Product, Inventory, Booking, Payment, commodity, borrowable, returnable, confirmed, primary, Db,
  addon_upsell, captured,
}
use vibehouse_backend.World.{World, Services}

abbrev pub env : Services
env = record {
  uuid = λ n. n + 100;
  reservation_id = λ p n. n + 1000;
  redis_up = λ k. true;
  sqs_up = λ m. true;
  razorpay_order = λ n amount receipt. some (n + 500);
  payment_hmac = λ order payment. order + payment;
  webhook_hmac = λ body. body + 1;
  s3_up = λ key. true;
  development = false;
}

abbrev pub towel : Product
towel = record {
  id = 11;
  property_id = 1;
  category = commodity;
  base_price = 5000;
  is_active = true;
}

abbrev pub hairdryer : Product
hairdryer = record {
  id = 12;
  property_id = 1;
  category = borrowable;
  base_price = 0;
  is_active = true;
}

abbrev pub bedding : Product
bedding = record {
  id = 13;
  property_id = 1;
  category = returnable;
  base_price = 20000;
  is_active = true;
}

abbrev pub stock_row : ℕ → ℕ → ℕ → Inventory
stock_row id product stock = record {
  id = id;
  property_id = 1;
  product_id = product;
  total_stock = pos stock;
  available_stock = stock;
  reserved_stock = 0;
  sold_count = 0;
  damaged_count = 0;
  borrowed_out_count = 0;
  low_stock_threshold = 1;
}

abbrev pub stay : Booking
stay = record {
  ezee_reservation_id = 31;
  property_id = 1;
  guest_id = some 7;
  booker_email = some 70;
  booker_phone = none;
  checkin_date = 100;
  checkout_date = 103;
  no_of_guests = 2;
  status = confirmed;
  is_active = true;
}

-- A payment that went through before.
abbrev pub old_payment : Payment
old_payment = record {
  id = 41;
  ezee_reservation_id = 31;
  guest_id = 7;
  razorpay_order_id = 42;
  razorpay_payment_id = some 43;
  amount = 5000;
  purpose = addon_upsell;
  status = captured;
}

abbrev pub hotel : Db
hotel = record {
  properties = 1 ∷ [];
  guests = record { id = 7; email = some 70; phone = none } ∷ [];
  products = towel ∷ hairdryer ∷ bedding ∷ [];
  inventory = stock_row 21 11 10 ∷ stock_row 22 12 2 ∷ stock_row 23 13 3 ∷ [];
  bookings = stay ∷ [];
  access =
      record { id = 51; ezee_reservation_id = 31; guest_id = 7; role = primary; approved = true }
      ∷ [];
  slots = [];
  submissions = [];
  orders = [];
  items = [];
  payments = old_payment ∷ [];
  borrowed = [];
  issued = [];
  checkins = [];
  tickets = [];
}

abbrev pub start : World
start = record { db = hotel; cache = []; outbox = []; drawn = 0; gateway_calls = 0 }
