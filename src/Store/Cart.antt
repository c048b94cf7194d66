-- ===== src/Store/Cart.antt =====
-- The cart is the PENDING addon order of a guest and a booking: `addToCart`, `updateCartItem`,
-- `removeCartItem`, `getCart`, `checkout`.
use vibehouse_backend.Common.{
  ℕ, ◌+◌, ◌*◌, Bool, false, not, ◌&&◌, Option, none, some, [], ◌∷◌, ◌++◌, ltb, ◌==◌, holds_id,
  if◌then◌else◌, find, update_where, delete_where, sum_of, length,
}
use vibehouse_backend.Exec.{
  pure, gets, if_found, or_throw, throw_if, ◌>>=◌, ◌>>◌, product_not_found, wrong_category,
  bad_request, item_not_found, order_not_found, not_your_cart, already_checked_out,
  insufficient_stock, cart_empty,
}
use vibehouse_backend.Tables.{
  Product, Order, Item, pre_arrival, during_stay, phase_eq, pending, is_pending, is_commodity,
  is_borrowable, Inventory,
}
use vibehouse_backend.World.{World, Action, Services, set_orders, set_items, draw_uuid}
use vibehouse_backend.Booking.Addons.{require_stock, category_is, items_of}
use vibehouse_backend.Store.{verify_booking_access, is_checked_in}

abbrev pub cart_of : ℕ → ℕ → World → Option Order
cart_of guest eri w =
    find (λ o. o.ezee_reservation_id == eri && o.guest_id == guest && is_pending o.status)
      w.db.orders

-- `getCartDetails`
unfoldable pub cart_total : ℕ → ℕ → World → ℕ
cart_total guest eri w = elim (cart_of guest eri w) [
  | none ↦ 0
  | some cart ↦ sum_of (λ i. i.total_price) (items_of cart.id w)
]

-- The item of a cart for a product and a bed.
abbrev pub same_line : ℕ → ℕ → ℕ → Item → Bool
same_line order product unit i =
    i.addon_order_id == order && i.product_id == product && holds_id i.unit_code unit

-- The update of `addToCart` for an item that is there already.
unfoldable pub add_units : ℕ → ℕ → Item → Item
add_units unit_price quantity i = record i {
  quantity = i.quantity + quantity;
  total_price = unit_price * (i.quantity + quantity);
}

-- The update of `updateCartItem`.
unfoldable pub set_units : ℕ → Item → Item
set_units quantity i = record i { quantity = quantity; total_price = i.unit_price * quantity }

-- `updateCartItem` looks at the first stock row of the product, at any property, and lets an item
-- pass that has none.
abbrev pub short_of : ℕ → Option Inventory → Bool
short_of quantity none = false
short_of quantity (some inv) = ltb inv.available_stock quantity

-- The tests that `updateCartItem` and `removeCartItem` make of the item.
unfoldable pub own_item : ℕ → ℕ → Action Item
unfolding ◌>>=◌
own_item guest item_id = do
  item ← or_throw (← gets (λ w. find (λ i. i.id == item_id) w.db.items)) item_not_found
  order ←
      or_throw (← gets (λ w. find (λ o. o.id == item.addon_order_id) w.db.orders)) order_not_found
  throw_if (not (order.guest_id == guest)) not_your_cart
  throw_if (not (is_pending order.status)) already_checked_out
  pure item

abbrev pub new_cart : ℕ → ℕ → ℕ → Order
new_cart id eri guest = record {
  id = id;
  ezee_reservation_id = eri;
  guest_id = guest;
  payment_id = none;
  phase = pre_arrival;
  status = pending;
}

module _ (env : Services) where
  -- `getOrCreateCart`
  unfoldable pub get_or_create_cart : ℕ → ℕ → Action Order
  unfolding ◌>>=◌
  get_or_create_cart guest eri = do
    cart ← gets (cart_of guest eri)
    if_found cart (λ cart. pure cart)
        (do
          id ← draw_uuid env
          set_orders λ rows. rows ++ new_cart id eri guest ∷ []
          pure (new_cart id eri guest))

  -- The end of `addToCart`: one more line, or more units in the line that is there.
  unfoldable pub put_line : ℕ → Product → ℕ → ℕ → Action (Unit {0})
  unfolding add_units ◌>>=◌
  put_line cart product quantity unit = do
    existing ← gets (λ w. find (same_line cart product.id unit) w.db.items)
    if_found existing
        (λ item.
          set_items (update_where (λ i. i.id == item.id) (add_units product.base_price quantity)))
        (do
          id ← draw_uuid env
          set_items λ rows.
              rows
              ++ record {
                id = id;
                addon_order_id = cart;
                product_id = product.id;
                quantity = quantity;
                unit_price = product.base_price;
                total_price = product.base_price * quantity;
                unit_code = some unit;
              }
                ∷ [])

  -- Answers with the total of the cart.
  unfoldable pub add_to_cart : (guest eri product_id quantity unit_code : ℕ) → Action ℕ
  unfolding put_line get_or_create_cart verify_booking_access require_stock ◌>>=◌
  add_to_cart guest eri product_id quantity unit_code = do
    booking ← verify_booking_access guest eri
    checked_in ← gets (is_checked_in guest eri)
    let phase = if checked_in then during_stay else pre_arrival
    product ←
        or_throw
          (← gets (λ w.
            find (λ p. p.id == product_id && p.property_id == booking.property_id && p.is_active)
              w.db.products))
          product_not_found
    throw_if (is_borrowable product.category) wrong_category
    throw_if (product.base_price == 0) bad_request
    require_stock (is_commodity product.category) product.id booking.property_id quantity
    cart ← get_or_create_cart guest eri
    if phase_eq cart.phase phase
        then pure tt
        else set_orders (update_where (λ o. o.id == cart.id) λ o. record o { phase = phase })
    put_line cart.id product quantity unit_code
    gets (cart_total guest eri)

unfoldable pub get_cart : ℕ → ℕ → Action ℕ
unfolding verify_booking_access ◌>>=◌
get_cart guest eri = do verify_booking_access guest eri; gets (cart_total guest eri)

unfoldable pub update_cart_item : (guest eri item_id quantity : ℕ) → Action ℕ
unfolding verify_booking_access own_item ◌>>=◌
update_cart_item guest eri item_id quantity = do
  verify_booking_access guest eri
  item ← own_item guest item_id
  commodity ← gets (category_is is_commodity item.product_id)
  inv ← gets (λ w. find (λ r. r.product_id == item.product_id) w.db.inventory)
  throw_if (commodity && short_of quantity inv) insufficient_stock
  set_items (update_where (λ i. i.id == item_id) (set_units quantity))
  gets (cart_total guest eri)

unfoldable pub remove_cart_item : (guest eri item_id : ℕ) → Action ℕ
unfolding verify_booking_access own_item ◌>>=◌
remove_cart_item guest eri item_id = do
  verify_booking_access guest eri
  own_item guest item_id
  set_items (delete_where (λ i. i.id == item_id))
  gets (cart_total guest eri)

-- Answers with the order and its total.
unfoldable pub checkout : ℕ → ℕ → Action (ℕ × ℕ)
unfolding verify_booking_access ◌>>=◌
checkout guest eri = do
  verify_booking_access guest eri
  cart ← or_throw (← gets (cart_of guest eri)) cart_empty
  items ← gets (items_of cart.id)
  throw_if (length items == 0) cart_empty
  pure (cart.id, sum_of (λ i. i.total_price) items)
