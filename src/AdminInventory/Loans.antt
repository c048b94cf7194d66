-- ===== src/AdminInventory/Loans.antt =====
-- Loans of borrowable products at the desk: `borrowableCheckout`, `verifyReturn`.
use vibehouse_backend.Common.{ℕ, not, [], ◌∷◌, ◌++◌, ltb, ◌==◌, find, update_where}
use vibehouse_backend.Exec.{
  pure, gets, if_found, or_throw, throw_if, ◌>>=◌, ◌>>◌, inventory_not_found, insufficient_stock,
  wrong_category, guest_not_found, booking_not_found, checkout_not_found, already_returned,
  product_not_found,
}
use vibehouse_backend.Tables.{Borrowed, checked_out, returned, is_borrowable, is_returned}
use vibehouse_backend.World.{
  Action, Services, all, property, admin, borrowable_checkout, borrowable_return_verified,
  audit_log, transaction, update_inventory, set_borrowed, draw_uuid, invalidate_property_cache,
  send,
}
use vibehouse_backend.Stock.{lent, given_back}
use vibehouse_backend.AdminInventory.{Actor, stock_of}

-- The transaction of `borrowableCheckout`.
unfoldable pub lend : ℕ → ℕ → ℕ → ℕ → Action (Unit {0})
unfolding ◌>>=◌
lend checkout inventory_id eri guest = do
  set_borrowed λ rows.
      rows
      ++ record {
        id = checkout;
        inventory_id = inventory_id;
        ezee_reservation_id = eri;
        guest_id = guest;
        status = checked_out;
      }
        ∷ []
  update_inventory (λ r. r.id == inventory_id) (lent 1)

-- The transaction of `verifyReturn`.
unfoldable pub take_back : Borrowed → Action (Unit {0})
unfolding ◌>>=◌
take_back checkout = do
  set_borrowed (update_where (λ c. c.id == checkout.id) λ c. record c { status = returned })
  update_inventory (λ r. r.id == checkout.inventory_id) (given_back 1)

module _ (env : Services) where
  -- `borrowableCheckout`
  unfoldable pub checkout_borrowable : ℕ → ℕ → ℕ → Actor → Action ℕ
  unfolding lend ◌>>=◌
  checkout_borrowable product guest eri actor = do
    inv ← or_throw (← gets (stock_of product actor)) inventory_not_found
    p ← or_throw (← gets (λ w. find (λ p. p.id == inv.product_id) w.db.products)) product_not_found
    throw_if (not (is_borrowable p.category)) wrong_category
    throw_if (ltb inv.available_stock 1) insufficient_stock
    or_throw (← gets (λ w. find (λ g. g.id == guest) w.db.guests)) guest_not_found
    or_throw (← gets (λ w. find (λ b. b.ezee_reservation_id == eri) w.db.bookings))
        booking_not_found
    checkout ← draw_uuid env
    transaction (lend checkout inv.id eri guest)
    send env (audit_log admin actor.admin_id borrowable_checkout checkout)
    invalidate_property_cache env (property inv.property_id)
    invalidate_property_cache env all
    pure checkout

  unfoldable pub verify_return : ℕ → Actor → Action (Unit {0})
  unfolding take_back ◌>>=◌
  verify_return id actor = do
    checkout ← or_throw (← gets (λ w. find (λ c. c.id == id) w.db.borrowed)) checkout_not_found
    throw_if (is_returned checkout.status) already_returned
    transaction (take_back checkout)
    send env (audit_log admin actor.admin_id borrowable_return_verified id)
    inv ← gets (λ w. find (λ r. r.id == checkout.inventory_id) w.db.inventory)
    if_found inv
        (λ inv. do
          invalidate_property_cache env (property inv.property_id)
          invalidate_property_cache env all)
        (pure tt)
