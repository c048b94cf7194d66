-- ===== src/Booking/Orders.antt =====
-- `createBookingOrder`, `rollbackPendingBooking` and `confirmBooking`.
use vibehouse_backend.Common.{
  ℕ, ◌+◌, ◌/◌, true, false, Option, none, some, List, [], ◌∷◌, ◌++◌, ◌==◌, if◌then◌else◌, find,
  update_where, delete_where, length,
}
use vibehouse_backend.Exec.{
  pure, gets, if_found, lift, or_throw, throw_if, for_each, ◌>>=◌, ◌>>◌, property_not_found,
  booking_not_found, bad_request, unique_violation,
}
use vibehouse_backend.Tables.{
  Booking, primary, at_booking, pending, pending_payment, confirmed, cancelled, is_pending_payment,
  is_confirmed,
}
use vibehouse_backend.World.{
  World, Action, Services, rooms, transaction, set_bookings, set_access, set_slots, set_orders,
  set_items, draw_uuid, cache_del,
}
use vibehouse_backend.Booking.Rooms.{
  RoomOption, RoomSelection, day_ms, parse_date_range, validate_room_selections,
}
use vibehouse_backend.Booking.Addons.{
  AddonSelection, ValidatedAddon, validate_addons, lock_addon, reserve_addon,
  release_addon_inventory, finalize_addon_inventory,
}
use vibehouse_backend.Booking.Slots.{create_booking_slots}

pub record BookingRequest : Type 0 where
  pub property_id : ℕ
  pub checkin_date : Option ℕ
  pub checkout_date : Option ℕ
  pub rooms : List RoomSelection
  pub addons : List AddonSelection

pub record BookingSummary : Type 0 where
  pub ezee_reservation_id : ℕ
  pub no_of_nights : ℕ
  pub total_guests : ℕ
  pub subtotal_rooms : ℕ
  pub subtotal_addons : ℕ
  pub grand_total : ℕ
  pub addon_order_id : Option ℕ

abbrev pub booking_of : ℕ → World → Option Booking
booking_of eri w = find (λ b. b.ezee_reservation_id == eri) w.db.bookings

abbrev pub with_status : ℕ → (Booking → Booking) → List Booking → List Booking
with_status eri f = update_where (λ b. b.ezee_reservation_id == eri) f

-- `ezee_booking_cache.create`: the reservation id is the primary key.
unfoldable pub create_booking : Booking → Action (Unit {0})
unfolding ◌>>=◌
create_booking b = do
  clash ← gets (booking_of b.ezee_reservation_id)
  throw_if (elim clash [ none ↦ false | some c ↦ true ]) unique_violation
  set_bookings λ rows. rows ++ b ∷ []

module _ (env : Services) where
  unfoldable pub create_item : ℕ → ValidatedAddon → Action (Unit {0})
  unfolding ◌>>=◌
  create_item order addon = do
    id ← draw_uuid env
    set_items λ rows.
        rows
        ++ record {
          id = id;
          addon_order_id = order;
          product_id = addon.product.id;
          quantity = addon.quantity;
          unit_price = addon.product.base_price;
          total_price = addon.line_total;
          unit_code = none;
        }
          ∷ []

  -- The addon order of the transaction.
  unfoldable pub create_addon_order : ℕ → ℕ → List ValidatedAddon → Action (Option ℕ)
  unfolding create_item ◌>>=◌
  create_addon_order eri guest addons = do
    order ← draw_uuid env
    set_orders λ rows.
        rows
        ++ record {
          id = order;
          ezee_reservation_id = eri;
          guest_id = guest;
          payment_id = none;
          phase = at_booking;
          status = pending;
        }
          ∷ []
    for_each addons (create_item order)
    pure (some order)

  -- The transaction of `createBookingOrder`.
  unfoldable pub persist_booking : (guest : ℕ) → Booking → List ValidatedAddon → Action (Option ℕ)
  unfolding create_booking create_addon_order lock_addon reserve_addon ◌>>=◌
  persist_booking guest b addons = do
    for_each addons (lock_addon b.property_id)
    for_each addons (reserve_addon b.property_id)
    create_booking b
    access ← draw_uuid env
    set_access λ rows.
        rows
        ++ record {
          id = access;
          ezee_reservation_id = b.ezee_reservation_id;
          guest_id = guest;
          role = primary;
          approved = true;
        }
          ∷ []
    order ←
        if length addons == 0
        then pure none
        else create_addon_order b.ezee_reservation_id guest addons
    create_booking_slots env b.ezee_reservation_id b.no_of_guests guest
    pure order

  -- `available` is the list of room types that `getRoomAvailability` has answered.
  unfoldable pub create_booking_order :
      (guest : ℕ) → BookingRequest → (available : List RoomOption) → Action BookingSummary
  unfolding ◌>>=◌
  create_booking_order guest dto available = do
    (checkin, checkout, nights) ← lift (parse_date_range dto.checkin_date dto.checkout_date)
    throw_if (length dto.rooms == 0) bad_request
    or_throw (← gets (λ w. find (λ p. p == dto.property_id) w.db.properties)) property_not_found
    cache_del env (rooms dto.property_id checkin checkout)
    totals ← lift (validate_room_selections dto.rooms available nights)
    addons ←
        validate_addons dto.property_id dto.addons
          (record { validated_addons = []; addon_total = 0 })
    random ← draw_uuid env
    let eri = env.reservation_id dto.property_id random
    order ← transaction (
        persist_booking guest
          (record {
            ezee_reservation_id = eri;
            property_id = dto.property_id;
            guest_id = some guest;
            booker_email = none;
            booker_phone = none;
            checkin_date = checkin / day_ms;
            checkout_date = checkout / day_ms;
            no_of_guests = totals.total_guests;
            status = pending_payment;
            is_active = true;
          })
          addons.validated_addons)
    cache_del env (rooms dto.property_id checkin checkout)
    pure (record {
      ezee_reservation_id = eri;
      no_of_nights = nights;
      total_guests = totals.total_guests;
      subtotal_rooms = totals.room_total;
      subtotal_addons = addons.addon_total;
      grand_total = totals.room_total + addons.addon_total;
      addon_order_id = order;
    })

-- The transaction of `rollbackPendingBooking`.
unfoldable pub cancel_pending : ℕ → Booking → Action (Unit {0})
unfolding release_addon_inventory ◌>>=◌
cancel_pending eri booking = do
  release_addon_inventory eri booking.property_id
  set_slots (delete_where (λ s. s.ezee_reservation_id == eri))
  set_access (delete_where (λ a. a.ezee_reservation_id == eri))
  set_bookings (with_status eri λ b. record b { status = cancelled; is_active = false })

-- Here and in src/payment/payment.service.ts.
unfoldable pub rollback_pending_booking : ℕ → Action (Unit {0})
unfolding cancel_pending ◌>>=◌
rollback_pending_booking eri = do
  booking ← gets (booking_of eri)
  if_found booking
      (λ b. if is_pending_payment b.status then transaction (cancel_pending eri b) else pure tt)
      (pure tt)

-- The transaction of `confirmBooking`.
unfoldable pub confirm : ℕ → Booking → Action (Unit {0})
unfolding finalize_addon_inventory ◌>>=◌
confirm eri booking = do
  set_bookings (with_status eri λ b. record b { status = confirmed })
  finalize_addon_inventory eri booking.property_id

unfoldable pub confirm_booking : ℕ → Action (Unit {0})
unfolding confirm ◌>>=◌
confirm_booking eri = do
  booking ← or_throw (← gets (booking_of eri)) booking_not_found
  if is_confirmed booking.status then pure tt else transaction (confirm eri booking)
