-- ===== src/Tests/Orders.antt =====
-- Prices and fulfilments, at concrete worlds.
use vibehouse_backend.Common.{ℕ, ◌≡◌, refl, none, some, [], ◌∷◌, find, where_, arith, ◌≤◌}
use vibehouse_backend.Exec.{ok, for_each, ◌>>=◌}
use vibehouse_backend.Tables.{
  not_started, Order, Item, Payment, created, pending, during_stay, addon_upsell, captured, paid,
  refund_needed, failed_stock,
}
use vibehouse_backend.World.{World}
use vibehouse_backend.Booking.Rooms.{
  RoomOption, RoomSelection, ValidatedRoom, validate_room_selections,
}
use vibehouse_backend.Booking.Rooms.Quotes.{
  Quoted, quote_of, validate_room_selections_sound, validate_room_selections_complete,
}
use vibehouse_backend.Stock.{released, finalized}
use vibehouse_backend.Booking.Addons.{ValidatedAddon, reserve_addon, move_item}
use vibehouse_backend.Booking.Addons.Reserve.{sold_off, reserve-release, reserve-finalize}
use vibehouse_backend.Booking.Slots.{create_booking_slots}
use vibehouse_backend.Booking.Slots.Made.{with_slots, create_booking_slots_lem}
use vibehouse_backend.Payment.Fulfil.{fulfil_order, fulfilled, refund_due}
use vibehouse_backend.Stock.Moves.{stocked}
use vibehouse_backend.Payment.Fulfil.Sale.{
  closed, sold_down, fulfil_order-refund, fulfil_order-sold,
}
use vibehouse_backend.Tests.Data.{env, start, stay, hotel, stock_row, towel}

abbrev pub dorm : RoomOption
dorm = record { id = 61; available_beds = 4; base_price_per_night = 90000 }

abbrev pub two_beds : RoomSelection
two_beds = record { room_type_id = 61; quantity = 2; guests = some 2 }

abbrev pub two_quoted : ValidatedRoom
two_quoted = record { room_type = dorm; quantity = 2; line_total = 540000 }

validate_room_selections_complete_example :
    validate_room_selections (two_beds ∷ []) (dorm ∷ []) 3 ≡ ok (quote_of (two_quoted ∷ []) 2)
unfolding find
validate_room_selections_complete_example =
    validate_room_selections_complete 3 (dorm ∷ []) (two_beds ∷ []) (two_quoted ∷ []) (omega arith)
      ((refl, refl, omega arith, refl, refl), tt)

validate_room_selections_sound_example :
    (2 ≤ 6)
    × (vs : _) × Quoted 3 (dorm ∷ []) (two_beds ∷ []) vs
    × (quote_of (two_quoted ∷ []) 2 ≡ quote_of vs 2)
validate_room_selections_sound_example =
    validate_room_selections_sound 3 (dorm ∷ []) (two_beds ∷ [])
      validate_room_selections_complete_example

abbrev pub towels : ℕ → Item
towels n = record {
  id = 71;
  addon_order_id = 81;
  product_id = 11;
  quantity = n;
  unit_price = 5000;
  total_price = 5000;
  unit_code = some 9;
}

abbrev pub towel_order : Order
towel_order = record {
  id = 81;
  ezee_reservation_id = 31;
  guest_id = 7;
  payment_id = some 91;
  phase = during_stay;
  status = pending;
}

abbrev pub towel_payment : Payment
towel_payment = record {
  id = 91;
  ezee_reservation_id = 31;
  guest_id = 7;
  razorpay_order_id = 92;
  razorpay_payment_id = none;
  amount = 5000;
  purpose = addon_upsell;
  status = created;
}

-- A cart with n towels, for which a payment is open.
abbrev pub paying : ℕ → World
paying n = record start {
  db = record hotel {
    orders = towel_order ∷ [];
    items = towels n ∷ [];
    payments = towel_payment ∷ [];
  };
}

fulfil_order-refund_example :
    fulfil_order env 91 (some 60) (paying 12)
    ≡ (ok (refund_due (towels 12)), closed 91 refund_needed 81 failed_stock (some 60) (paying 12))
unfolding find where_
fulfil_order-refund_example =
    fulfil_order-refund env (paying 12) towel_payment (some 60) towel_order stay
      (refl, refl, refl, refl, refl) refl

fulfil_order-sold_example :
    ((fulfil_order env 91 (some 60) (paying 4)).0 ≡ ok fulfilled)
    × ((fulfil_order env 91 (some 60) (paying 4)).1.db
        ≡ (closed 91 captured 81 paid (some 60) (
            stocked
              (sold_down 4 (stock_row 21 11 10)
                ∷ sold_down 0 (stock_row 22 12 2)
                ∷ sold_down 0 (stock_row 23 13 3)
                ∷ [])
              (paying 4))).db)
unfolding find where_
fulfil_order-sold_example =
    fulfil_order-sold env (paying 4) towel_payment (some 60) towel_order stay
      (refl, refl, refl, refl, refl) refl (omega arith, (omega arith, (omega arith, tt)))

abbrev pub towel_addon : ValidatedAddon
towel_addon = record { product = towel; quantity = 4; line_total = 20000 }

reserve-release_example :
    (for_each (towel_addon ∷ []) (reserve_addon 1) >>= λ _.
    for_each (towels 4 ∷ []) (move_item released 1))
      start
    ≡ (ok tt, start)
unfolding find
reserve-release_example =
    reserve-release 1 (towel_addon ∷ []) (towels 4 ∷ []) start
      (refl, (omega arith, (omega arith, (omega arith, tt))))

reserve-finalize_example :
    (for_each (towel_addon ∷ []) (reserve_addon 1) >>= λ _.
    for_each (towels 4 ∷ []) (move_item finalized 1))
      start
    ≡ (
      ok tt,
      stocked
          (sold_off 4 (stock_row 21 11 10)
            ∷ sold_off 0 (stock_row 22 12 2)
            ∷ sold_off 0 (stock_row 23 13 3)
            ∷ [])
          start,
    )
unfolding find
reserve-finalize_example =
    reserve-finalize 1 (towel_addon ∷ []) (towels 4 ∷ []) start
      (refl, (omega arith, (omega arith, (omega arith, tt))))

create_booking_slots_lem_example : create_booking_slots env 31 2 7 start ≡ (
  ok tt,
  with_slots env 31
      (record {
        id = 100;
        ezee_reservation_id = 31;
        slot_number = 1;
        guest_id = some 7;
        kyc_status = not_started;
      }
        ∷ record {
          id = 101;
          ezee_reservation_id = 31;
          slot_number = 2;
          guest_id = none;
          kyc_status = not_started;
        }
        ∷ [])
      2
      start,
)
create_booking_slots_lem_example = create_booking_slots_lem env 31 7 1 start
