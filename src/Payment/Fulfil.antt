-- ===== src/Payment/Fulfil.antt =====
-- Fulfilment of a paid order: `fulfilOrder` and `fulfilBookingOrder`.
pub mod Sale
use vibehouse_backend.Common.{
  ℕ, Bool, Option, none, some, List, ltb, ◌==◌, holds_id, if◌then◌else◌, find, where_, update_where,
}
use vibehouse_backend.Exec.{
  pure, gets, if_found, or_throw, for_each, ◌>>=◌, ◌>>◌, booking_not_found, payment_not_found,
  order_not_found,
}
use vibehouse_backend.Tables.{
  Booking, Item, Payment, paid, failed_stock, captured, refund_needed, confirmed, is_captured,
  is_booking, is_confirmed, is_commodity, OrderStatus,
}
use vibehouse_backend.World.{
  World, Action, Services, property, guest, payment_captured, booking_confirmed, audit_log,
  payment_success, ezee_add_extra_charge, booking_confirmed_event, ezee_insert_booking, transaction,
  update_inventory, set_orders, set_bookings, invalidate_property_cache, send,
}
use vibehouse_backend.Stock.{sold}
use vibehouse_backend.Booking.Addons.{
  stock_at, available_in, category_is, items_of, finalize_addon_inventory,
}
use vibehouse_backend.Booking.Orders.{booking_of, with_status}
use vibehouse_backend.Payment.{payment_of, settle}

pub data Fulfilment : Type 0 where
  already_captured already_confirmed fulfilled booking_confirmed_now : Fulfilment
  refund_due : Item → Fulfilment

abbrev pub commodity_items : ℕ → World → List Item
commodity_items order w = where_ (λ i. category_is is_commodity i.product_id w) (items_of order w)

-- `(stockMap.get(item.product_id) ?? 0) < item.quantity`, on the locked rows.
abbrev pub lacks_stock : ℕ → World → Item → Bool
lacks_stock property_id w item =
    ltb (available_in (find (stock_at item.product_id property_id) w.db.inventory)) item.quantity

unfoldable pub sell_item : ℕ → Item → Action (Unit {0})
sell_item property_id item =
    update_inventory (stock_at item.product_id property_id) (sold item.quantity)

unfoldable pub set_order_status : ℕ → OrderStatus → Action (Unit {0})
set_order_status order status =
    set_orders (update_where (λ o. o.id == order) λ o. record o { status = status })

-- The transaction of `fulfilOrder`. `items` are the commodity items, read before it. The answer
-- is the first item whose stock is short, if there is one.
unfoldable pub fulfil_addons :
    (payment : ℕ) → Option ℕ → (order property_id : ℕ) → List Item → Action (Option Item)
unfolding settle sell_item set_order_status ◌>>=◌
fulfil_addons payment rzp order property_id items = do
  conflict ← gets (λ w. find (lacks_stock property_id w) items)
  if_found conflict
      (λ short. do
        settle payment rzp refund_needed
        set_order_status order failed_stock
        pure (some short))
      (do
        for_each items (sell_item property_id)
        settle payment rzp captured
        set_order_status order paid
        pure none)

-- The transaction of `fulfilBookingOrder`.
unfoldable pub fulfil_booking : (payment : ℕ) → Option ℕ → (eri : ℕ) → Booking → Action (Unit {0})
unfolding finalize_addon_inventory settle ◌>>=◌
fulfil_booking payment rzp eri b = do
  set_bookings (with_status eri λ x. record x { status = confirmed })
  finalize_addon_inventory eri b.property_id
  settle payment rzp captured

module _ (env : Services) where
  unfoldable pub fulfil_booking_order : Payment → Option ℕ → Action Fulfilment
  unfolding fulfil_booking settle ◌>>=◌
  fulfil_booking_order p rzp = do
    let eri = p.ezee_reservation_id
    b ← or_throw (← gets (booking_of eri)) booking_not_found
    if is_confirmed b.status then (do settle p.id rzp captured; pure already_confirmed) else (do
      transaction (fulfil_booking p.id rzp eri b)
      invalidate_property_cache env (property b.property_id)
      send env (audit_log guest p.guest_id booking_confirmed eri)
      send env (booking_confirmed_event eri p.id p.guest_id)
      send env (ezee_insert_booking eri p.guest_id b.property_id p.amount)
      pure booking_confirmed_now)

  -- What `fulfilOrder` does once its transaction has ended.
  unfoldable pub announce_sale : Payment → Option ℕ → Booking → Option Item → Action Fulfilment
  unfolding ◌>>=◌
  announce_sale p rzp b result =
      if_found result (λ short. pure (refund_due short))
        (do
          invalidate_property_cache env (property b.property_id)
          send env (audit_log guest p.guest_id payment_captured p.id)
          send env (
              payment_success p.ezee_reservation_id p.id rzp p.amount p.purpose p.guest_id
                b.property_id)
          send env (ezee_add_extra_charge p.ezee_reservation_id b.property_id rzp)
          pure fulfilled)

  unfoldable pub fulfil_addon_order : Payment → Option ℕ → Action Fulfilment
  unfolding fulfil_addons announce_sale ◌>>=◌
  fulfil_addon_order p rzp = do
    order ←
        or_throw (← gets (λ w. find (λ o. holds_id o.payment_id p.id) w.db.orders)) order_not_found
    b ← or_throw (← gets (booking_of p.ezee_reservation_id)) booking_not_found
    items ← gets (commodity_items order.id)
    result ← transaction (fulfil_addons p.id rzp order.id b.property_id items)
    announce_sale p rzp b result

  unfoldable pub fulfil_order : ℕ → Option ℕ → Action Fulfilment
  unfolding ◌>>=◌
  fulfil_order id rzp = do
    p ← or_throw (← gets (payment_of id)) payment_not_found
    if is_captured p.status
        then pure already_captured
        else (if is_booking p.purpose then fulfil_booking_order p rzp else fulfil_addon_order p rzp)
