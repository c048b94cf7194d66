-- ===== src/Payment/Fulfil/Sale.antt =====
-- What `fulfilOrder` does to the stock: the loop over the items of an order, as one write.
use vibehouse_backend.Common.{
  true, ℕ, ◌+◌, ◌-◌, ◌≤◌, ◌≡◌, refl, ap, false, none, some, Option, List, map, ◌==◌, holds_id, find,
  update_where, All, arith,
}
use vibehouse_backend.Exec.Runs.{bind-ok}
use vibehouse_backend.World.Runs.{transaction-ok}
use vibehouse_backend.Exec.{ok, for_each}
use vibehouse_backend.Tables.{
  Inventory, Item, Order, Booking, Payment, paid, captured, failed_stock, refund_needed,
  PaymentStatus, OrderStatus, is_captured, is_booking,
}
use vibehouse_backend.Booking.Orders.{booking_of}
use vibehouse_backend.World.{
  World, Services, transaction, invalidate_property_cache, send, set_orders, set_payments,
}
use vibehouse_backend.Stock.{sold}
use vibehouse_backend.Stock.Moves.{Move, Line, demand, stocked, for_each-stocked}
use vibehouse_backend.Payment.{payment_of, settled}
use vibehouse_backend.Payment.Fulfil.{
  lacks_stock, sell_item, fulfil_addons, fulfil_addon_order, fulfil_order, commodity_items,
  refund_due, fulfilled, announce_sale,
}

-- A row after a sale of `q` units.
abbrev pub sold_down : ℕ → Inventory → Inventory
sold_down q r = record r { available_stock = r.available_stock - q; sold_count = r.sold_count + q }

row_eq :
    (r : Inventory) {a a' s s' : ℕ}
    → a ≡ a'
    → s ≡ s'
    → (record r { available_stock = a; sold_count = s })
      ≡ (record r { available_stock = a'; sold_count = s' })
row_eq r p q = cc

sold-sold_down : (q : ℕ) (r : Inventory) → q ≤ r.available_stock → sold q r ≡ some (sold_down q r)
unfolding sold
sold-sold_down q r h = ground arith

abbrev sale : Move
sale = record {
  write = sold;
  room = λ r. r.available_stock;
  moved = sold_down;
  fits = sold-sold_down;
  nothing = λ r. row_eq r (omega arith) (omega arith);
  twice = λ a b r. row_eq r (omega arith) (omega arith);
  left = λ a r. refl;
  product = λ a r. refl;
  place = λ a r. refl;
}

abbrev pub item_line : Item → Line
item_line i = record { commodity = true; product_id = i.product_id; quantity = i.quantity }

-- What the items together ask of a row.
abbrev pub asked_of : ℕ → List Item → Inventory → ℕ
asked_of property_id items = demand property_id (map item_line items)

for_each-sell_item :
    (property_id : ℕ) (items : List Item) (w : World)
    → All (λ r. asked_of property_id items r ≤ r.available_stock) w.db.inventory
    → for_each items (sell_item property_id) w
      ≡ (ok tt, stocked (map (λ r. sold_down (asked_of property_id items r) r) w.db.inventory) w)
unfolding sell_item
for_each-sell_item property_id items w h =
    for_each-stocked property_id sale (λ _. Unit) item_line (sell_item property_id) (λ x w g. refl)
      (λ rows w g. tt) items w tt h

-- The rows of an order that is closed with a status, and of its payment.
abbrev pub closed : ℕ → PaymentStatus → ℕ → OrderStatus → Option ℕ → World → World
closed payment outcome order status rzp w = record w {
  db = record w.db {
    payments = update_where (λ p. p.id == payment) (settled rzp outcome) w.db.payments;
    orders = update_where (λ o. o.id == order) (λ o. record o { status = status }) w.db.orders;
  };
}

module _ (payment : ℕ) (rzp : Option ℕ) (order property_id : ℕ) (items : List Item)
    (w : World) where
  -- Where an item is short of stock, the transaction of `fulfilOrder` touches no inventory row: it
  -- answers with the first short item, the payment needs a refund and the order has failed.
  pub fulfil_addons-short :
      {short : Item}
      → find (lacks_stock property_id w) items ≡ some short
      → fulfil_addons payment rzp order property_id items w
        ≡ (ok (some short), closed payment refund_needed order failed_stock rzp w)
  unfolding fulfil_addons set_orders set_payments
  fulfil_addons-short e = rw e refl

  pub fulfil_addons-sold :
      find (lacks_stock property_id w) items ≡ none
      → All (λ r. asked_of property_id items r ≤ r.available_stock) w.db.inventory
      → fulfil_addons payment rzp order property_id items w ≡ (
        ok none,
        closed payment captured order paid rzp
            (stocked (map (λ r. sold_down (asked_of property_id items r) r) w.db.inventory) w),
      )
  unfolding fulfil_addons set_orders set_payments
  fulfil_addons-sold e h = let sale = for_each-sell_item property_id items w h in rw (e, sale) refl

module _ (env : Services) (w : World) (p : Payment) (rzp : Option ℕ) (order : Order)
    (b : Booking) where
  -- What `fulfilOrder` finds of a cart's payment that is not captured.
  abbrev pub Payable : Type 0
  Payable =
      (payment_of p.id w ≡ some p)
      × (is_captured p.status ≡ false)
      × (is_booking p.purpose ≡ false)
      × (find (λ o. holds_id o.payment_id p.id) w.db.orders ≡ some order)
      × (booking_of p.ezee_reservation_id w ≡ some b)

  fulfil_order-announce :
      {result : Option Item} {w' : World}
      → Payable
      → fulfil_addons p.id rzp order.id b.property_id (commodity_items order.id w) w
        ≡ (ok result, w')
      → fulfil_order env p.id rzp w ≡ announce_sale env p rzp b result w'
  unfolding fulfil_order fulfil_addon_order
  fulfil_order-announce (found, unpaid, cart, linked, booked) e =
      rw (found, unpaid, cart, linked, booked)
        (bind-ok
          (transaction (fulfil_addons p.id rzp order.id b.property_id (commodity_items order.id w)))
          (announce_sale env p rzp b) (transaction-ok _ e))

  -- A payment for a cart, not captured, that an order is linked to, of a booking that exists, where
  -- some commodity item of the order is short of stock: the answer is the refund of the first such
  -- item. The payment is marked as needing a refund, the order as failed, and nothing else is
  -- written, dropped from the cache or sent: no unit is sold.
  pub fulfil_order-refund :
      {short : Item}
      → Payable
      → find (lacks_stock b.property_id w) (commodity_items order.id w) ≡ some short
      → fulfil_order env p.id rzp w
        ≡ (ok (refund_due short), closed p.id refund_needed order.id failed_stock rzp w)
  unfolding announce_sale
  fulfil_order-refund h e =
      fulfil_order-announce h
        (fulfil_addons-short p.id rzp order.id b.property_id (commodity_items order.id w) w e)

  -- A payment for a cart, not captured, that an order is linked to, of a booking that exists, where
  -- no commodity item of the order alone is short of stock and each stock row has what these items
  -- together ask of it: the order is fulfilled. The payment is captured, the order paid, each row's
  -- available units go down and its sold units up by exactly what the items ask of it, and nothing
  -- else in the database changes.
  pub fulfil_order-sold :
      Payable
      → find (lacks_stock b.property_id w) (commodity_items order.id w) ≡ none
      → All
          (λ r. asked_of b.property_id (commodity_items order.id w) r ≤ r.available_stock)
          w.db.inventory
      → ((fulfil_order env p.id rzp w).0 ≡ ok fulfilled)
        × ((fulfil_order env p.id rzp w).1.db
            ≡ (closed p.id captured order.id paid rzp (
                stocked
                  (map
                    (λ r. sold_down (asked_of b.property_id (commodity_items order.id w) r) r)
                    w.db.inventory)
                  w)).db)
  unfolding announce_sale invalidate_property_cache send
  fulfil_order-sold h e enough =
      let sale =
        fulfil_addons-sold p.id rzp order.id b.property_id (commodity_items order.id w) w e
          enough in
      let run = fulfil_order-announce h sale in (ap (λ x. x.0) run, ap (λ x. x.1.db) run)
