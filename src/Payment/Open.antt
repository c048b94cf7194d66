-- ===== src/Payment/Open.antt =====
-- Opening a Razorpay order: `createOrder` for a cart, `createBookingPayment` for a booking.
use vibehouse_backend.Common.{
  ℕ, Option, none, some, leb, ◌==◌, if◌then◌else◌, update_where, sum_of, length,
}
use vibehouse_backend.Exec.{
  pure, throw, gets, if_found, or_throw, throw_if, for_each, ◌>>=◌, ◌>>◌, booking_not_found,
  cart_empty, already_paid, bad_request,
}
use vibehouse_backend.Tables.{
  Booking, Order, Item, addon_upsell, booking, created, is_captured, is_commodity,
}
use vibehouse_backend.World.{
  Action, Services, guest, payment_created, booking_payment_created, audit_log, set_orders,
  draw_uuid, send, create_razorpay_order,
}
use vibehouse_backend.Booking.Orders.{booking_of}
use vibehouse_backend.Booking.Link.{approved_access}
use vibehouse_backend.Booking.Addons.{require_stock, category_is, items_of}
use vibehouse_backend.Store.Cart.{cart_of}
use vibehouse_backend.Payment.{payment_of, create_payment}

-- What the client gets: the Razorpay order, the amount in paise and the payment's id.
pub record Opened : Type 0 where
  pub razorpay_order_id : ℕ
  pub amount_paise : ℕ
  pub payment_id : ℕ

-- `verifyBookingAccess` of this service.
unfoldable pub verify_access : ℕ → ℕ → Action Booking
unfolding ◌>>=◌
verify_access guest_id eri = do
  b ← or_throw (← gets (booking_of eri)) booking_not_found
  or_throw (← gets (approved_access eri guest_id)) bad_request
  pure b

-- Writes `payment_id` of an order.
unfoldable pub link_payment : ℕ → Option ℕ → Action (Unit {0})
link_payment order payment =
    set_orders (update_where (λ o. o.id == order) λ o. record o { payment_id = payment })

-- A linked payment that was not captured is unlinked, a captured one ends the request.
unfoldable pub release_old_payment : Order → Action (Unit {0})
unfolding link_payment ◌>>=◌
release_old_payment cart =
    if_found cart.payment_id
      (λ id. do
        existing ← gets (payment_of id)
        if_found existing
            (λ p. if is_captured p.status then throw already_paid else link_payment cart.id none)
            (pure tt))
      (pure tt)

unfoldable pub check_item_stock : ℕ → Item → Action (Unit {0})
unfolding require_stock ◌>>=◌
check_item_stock property_id item = do
  commodity ← gets (category_is is_commodity item.product_id)
  require_stock commodity item.product_id property_id item.quantity

module _ (env : Services) where
  unfoldable pub create_order : (guest_id eri : ℕ) → Action Opened
  unfolding verify_access release_old_payment check_item_stock create_payment link_payment ◌>>=◌
  create_order guest_id eri = do
    b ← verify_access guest_id eri
    cart ← or_throw (← gets (cart_of guest_id eri)) cart_empty
    items ← gets (items_of cart.id)
    throw_if (length items == 0) cart_empty
    release_old_payment cart
    let total = sum_of (λ i. i.total_price) items
    throw_if (leb total 0) bad_request
    for_each items (check_item_stock b.property_id)
    order ← create_razorpay_order env total cart.id
    id ← draw_uuid env
    create_payment (record {
      id = id;
      ezee_reservation_id = eri;
      guest_id = guest_id;
      razorpay_order_id = order;
      razorpay_payment_id = none;
      amount = total;
      purpose = addon_upsell;
      status = created;
    })
    link_payment cart.id (some id)
    send env (audit_log guest guest_id payment_created id)
    pure (record { razorpay_order_id = order; amount_paise = total; payment_id = id })

  unfoldable pub create_booking_payment : (guest_id eri grand_total : ℕ) → Option ℕ → Action Opened
  unfolding create_payment link_payment ◌>>=◌
  create_booking_payment guest_id eri grand_total addon_order_id = do
    throw_if (leb grand_total 0) bad_request
    order ← create_razorpay_order env grand_total eri
    id ← draw_uuid env
    create_payment (record {
      id = id;
      ezee_reservation_id = eri;
      guest_id = guest_id;
      razorpay_order_id = order;
      razorpay_payment_id = none;
      amount = grand_total;
      purpose = booking;
      status = created;
    })
    if_found addon_order_id (λ order. link_payment order (some id)) (pure tt)
    send env (audit_log guest guest_id booking_payment_created id)
    pure (record { razorpay_order_id = order; amount_paise = grand_total; payment_id = id })
