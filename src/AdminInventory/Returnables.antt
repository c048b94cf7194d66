-- ===== src/AdminInventory/Returnables.antt =====
-- Returnable products, which a guest pays for and the desk hands out: `getReturnableEntitlements`,
-- `returnableIssue`, `returnableVerifyReturn`.
use vibehouse_backend.Common.{
  ℕ, ◌+◌, not, ◌&&◌, Option, List, [], ◌∷◌, ◌++◌, ltb, ◌==◌, find, where_, update_where, sum_of,
}
use vibehouse_backend.Exec.{
  pure, gets, or_throw, throw_if, ◌>>=◌, ◌>>◌, inventory_not_found, product_not_found, bad_request,
  insufficient_stock, checkout_not_found, order_not_found, already_returned,
}
use vibehouse_backend.Tables.{
  Inventory, Item, Issued, CheckoutStatus, returned, lost, issued, is_returnable, is_issued,
  is_paid,
}
use vibehouse_backend.World.{
  Action, Services, property, admin, returnable_issued, returnable_return_verified, audit_log,
  transaction, update_inventory, set_issued, draw_uuid, invalidate_property_cache, send,
}
use vibehouse_backend.Stock.{lent, given_back, written_off}
use vibehouse_backend.AdminInventory.{Actor, desk, given}

-- dto.condition
pub data Condition : Type 0 where
  good damaged_item lost_item : Condition

abbrev pub status_after : Condition → CheckoutStatus
status_after lost_item = lost
status_after _ = returned

abbrev pub stock_after : Condition → ℕ → Inventory → Option Inventory
stock_after good q = given_back q
stock_after _ q = written_off q

-- What has been handed out for an item of an order, returned or not.
abbrev pub issued_for : ℕ → List Issued → ℕ
issued_for item rows = sum_of (λ c. c.quantity) (where_ (λ c. c.addon_order_item_id == item) rows)

-- The transaction of `returnableIssue`.
unfoldable pub hand_out : ℕ → Inventory → Item → ℕ → ℕ → ℕ → Action (Unit {0})
unfolding ◌>>=◌
hand_out checkout inventory item eri guest quantity = do
  set_issued λ rows.
      rows
      ++ record {
        id = checkout;
        inventory_id = inventory.id;
        addon_order_item_id = item.id;
        ezee_reservation_id = eri;
        guest_id = guest;
        quantity = quantity;
        status = issued;
      }
        ∷ []
  update_inventory (λ r. r.id == inventory.id) (lent quantity)

-- The transaction of `returnableVerifyReturn`.
unfoldable pub receive : Issued → Condition → Action (Unit {0})
unfolding ◌>>=◌
receive checkout condition = do
  set_issued
      (update_where (λ c. c.id == checkout.id) λ c. record c { status = status_after condition })
  update_inventory (λ r. r.id == checkout.inventory_id) (stock_after condition checkout.quantity)

module _ (env : Services) (default_property : ℕ) where
  -- The audit rows of this handler and of the next go to `admin_activity_log`, a table that
  -- nothing reads; they stand in the outbox here.
  unfoldable pub returnable_issue : (product guest eri item : ℕ) → Option ℕ → Actor → Action ℕ
  unfolding hand_out ◌>>=◌
  returnable_issue product guest eri item requested actor = do
    let property_id = desk default_property actor
    let quantity = given requested 1
    p ←
        or_throw
          (← gets (λ w.
            find (λ p. p.id == product && is_returnable p.category && p.is_active) w.db.products))
          product_not_found
    inventory ←
        or_throw
          (← gets (λ w.
            find (λ r. r.product_id == product && r.property_id == property_id) w.db.inventory))
          inventory_not_found
    throw_if (ltb inventory.available_stock quantity) insufficient_stock
    order_item ← or_throw (← gets (λ w. find (λ i. i.id == item) w.db.items)) bad_request
    throw_if (not (order_item.product_id == product)) bad_request
    order ←
        or_throw (← gets (λ w. find (λ o. o.id == order_item.addon_order_id) w.db.orders))
          order_not_found
    throw_if (not (is_paid order.status)) bad_request
    throw_if (not (order.guest_id == guest)) bad_request
    already ← gets (λ w. issued_for item w.db.issued)
    throw_if (ltb order_item.quantity (already + quantity)) bad_request
    checkout ← draw_uuid env
    transaction (hand_out checkout inventory order_item eri guest quantity)
    send env (audit_log admin actor.admin_id returnable_issued checkout)
    invalidate_property_cache env (property property_id)
    pure checkout

  unfoldable pub returnable_verify_return : ℕ → Condition → Actor → Action CheckoutStatus
  unfolding receive ◌>>=◌
  returnable_verify_return id condition actor = do
    checkout ← or_throw (← gets (λ w. find (λ c. c.id == id) w.db.issued)) checkout_not_found
    inventory ←
        or_throw (← gets (λ w. find (λ r. r.id == checkout.inventory_id) w.db.inventory))
          inventory_not_found
    throw_if (not (is_issued checkout.status)) already_returned
    transaction (receive checkout condition)
    send env (audit_log admin actor.admin_id returnable_return_verified id)
    invalidate_property_cache env (property inventory.property_id)
    pure (status_after condition)
