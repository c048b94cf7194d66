-- ===== src/Booking/Addons.antt =====
-- The addons of a booking: `validateAddonSelections`, `reserveAddonInventory`,
-- `releaseAddonInventory` and `finalizeAddonInventory`. The last two are repeated in
-- src/payment/payment.service.ts, in `rollbackPendingBooking` and `fulfilBookingOrder`.
pub mod Reserve
use vibehouse_backend.Common.{
  ℕ, ◌+◌, ◌*◌, Bool, ◌&&◌, Option, none, some, List, [], ◌∷◌, ◌++◌, ltb, ◌==◌, if◌then◌else◌, find,
  where_, update_where, delete_where,
}
use vibehouse_backend.Exec.{
  pure, gets, if_found, or_throw, throw_if, for_each, ◌>>=◌, ◌>>◌, product_not_found,
  wrong_category, bad_request, insufficient_stock,
}
use vibehouse_backend.Tables.{
  Category, Product, Inventory, Order, Item, paid, is_commodity, is_borrowable, is_pending,
}
use vibehouse_backend.World.{World, Action, update_inventory, set_orders, set_items}
use vibehouse_backend.Stock.{reserved, released, finalized}

pub record AddonSelection : Type 0 where
  pub product_id : ℕ
  pub quantity : ℕ

pub record ValidatedAddon : Type 0 where
  pub product : Product
  pub quantity : ℕ
  pub line_total : ℕ

pub record AddonTotals : Type 0 where
  pub validated_addons : List ValidatedAddon
  pub addon_total : ℕ

abbrev pub stock_at : ℕ → ℕ → Inventory → Bool
stock_at product property_id r = r.product_id == product && r.property_id == property_id

-- `inv?.available_stock ?? 0`
abbrev pub available_in : Option Inventory → ℕ
available_in none = 0
available_in (some r) = r.available_stock

-- The category of the product that an item joins.
abbrev pub category_is : (Category → Bool) → ℕ → World → Bool
category_is test product w = elim (find (λ p. p.id == product) w.db.products) [
  | none ↦ Bool.false
  | some p ↦ test p.category
]

-- The stock test that validation and every checkout make of a commodity; a missing row fails it.
unfoldable pub require_stock : Bool → ℕ → ℕ → ℕ → Action (Unit {0})
unfolding ◌>>=◌
require_stock commodity product property_id quantity =
    if commodity
    then (do
      inv ←
          or_throw (← gets (λ w. find (stock_at product property_id) w.db.inventory))
            insufficient_stock
      throw_if (ltb inv.available_stock quantity) insufficient_stock)
    else pure tt

unfoldable pub validate_addons : ℕ → List AddonSelection → AddonTotals → Action AddonTotals
unfolding require_stock ◌>>=◌
validate_addons property_id [] t = pure t
validate_addons property_id (addon ∷ addons) t = do
  product ←
      or_throw
        (← gets (λ w.
          find (λ p. p.id == addon.product_id && p.property_id == property_id && p.is_active)
            w.db.products))
        product_not_found
  throw_if (is_borrowable product.category) wrong_category
  throw_if (product.base_price == 0) bad_request
  require_stock (is_commodity product.category) product.id property_id addon.quantity
  let line = product.base_price * addon.quantity
  validate_addons property_id addons (record {
    validated_addons =
        t.validated_addons
        ++ record { product = product; quantity = addon.quantity; line_total = line } ∷ [];
    addon_total = t.addon_total + line;
  })

-- The test under `FOR UPDATE` at the start of the transaction of `createBookingOrder`.
unfoldable pub lock_addon : ℕ → ValidatedAddon → Action (Unit {0})
unfolding ◌>>=◌
lock_addon property_id addon =
    if is_commodity addon.product.category
    then (do
      row ← gets (λ w. find (stock_at addon.product.id property_id) w.db.inventory)
      throw_if (ltb (available_in row) addon.quantity) insufficient_stock)
    else pure tt

-- The body of the loop of `reserveAddonInventory`.
unfoldable pub reserve_addon : ℕ → ValidatedAddon → Action (Unit {0})
reserve_addon property_id addon =
    if is_commodity addon.product.category
    then update_inventory (stock_at addon.product.id property_id) (reserved addon.quantity)
    else pure tt

-- The loops of `releaseAddonInventory` and `finalizeAddonInventory` differ in the write alone.
unfoldable pub move_item : (ℕ → Inventory → Option Inventory) → ℕ → Item → Action (Unit {0})
unfolding ◌>>=◌
move_item write property_id item = do
  commodity ← gets (category_is is_commodity item.product_id)
  if commodity
      then update_inventory (stock_at item.product_id property_id) (write item.quantity)
      else pure tt

abbrev pub pending_order : ℕ → World → Option Order
pending_order eri w = find (λ o. o.ezee_reservation_id == eri && is_pending o.status) w.db.orders

abbrev pub items_of : ℕ → World → List Item
items_of order w = where_ (λ i. i.addon_order_id == order) w.db.items

unfoldable pub release_addon_inventory : ℕ → ℕ → Action (Unit {0})
unfolding move_item ◌>>=◌
release_addon_inventory eri property_id = do
  order ← gets (pending_order eri)
  if_found order
      (λ order. do
        items ← gets (items_of order.id)
        for_each items (move_item released property_id)
        set_items (delete_where (λ i. i.addon_order_id == order.id))
        set_orders (delete_where (λ o. o.id == order.id)))
      (pure tt)

unfoldable pub finalize_addon_inventory : ℕ → ℕ → Action (Unit {0})
unfolding move_item ◌>>=◌
finalize_addon_inventory eri property_id = do
  order ← gets (pending_order eri)
  if_found order
      (λ order. do
        items ← gets (items_of order.id)
        for_each items (move_item finalized property_id)
        set_orders (update_where (λ o. o.id == order.id) λ o. record o { status = paid }))
      (pure tt)
