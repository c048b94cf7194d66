-- ===== src/Store/Requests.antt =====
-- A guest's own loans and service requests: `requestBorrowable`, `requestFreeService`.
use vibehouse_backend.Common.{ℕ, true, false, not, ◌&&◌, none, some, [], ◌∷◌, ◌++◌, leb, ◌==◌, find}
use vibehouse_backend.Exec.{
  pure, gets, or_throw, throw_if, ◌>>=◌, ◌>>◌, product_not_found, insufficient_stock, bad_request,
}
use vibehouse_backend.Tables.{checked_out, is_borrowable, is_checked_out, is_service}
use vibehouse_backend.World.{
  Action, Services, property, transaction, update_inventory, set_borrowed, set_tickets, draw_uuid,
  invalidate_property_cache,
}
use vibehouse_backend.Stock.{lent}
use vibehouse_backend.Booking.Addons.{stock_at, available_in}
use vibehouse_backend.Store.{verify_booking_access, is_checked_in}

-- The transaction of `requestBorrowable`: it reads the row again, under `FOR UPDATE`.
unfoldable pub borrow : (checkout inventory_id eri guest : ℕ) → Action (Unit {0})
unfolding ◌>>=◌
borrow checkout inventory_id eri guest = do
  locked ← gets (λ w. find (λ r. r.id == inventory_id) w.db.inventory)
  throw_if (leb (available_in locked) 0) insufficient_stock
  set_borrowed λ rows.
      rows
      ++ record {
        id = checkout;
        inventory_id = inventory_id;
        ezee_reservation_id = eri;
        guest_id = guest;
        status = checked_out;
      }
        ∷ []
  update_inventory (λ r. r.id == inventory_id) (lent 1)

module _ (env : Services) where
  unfoldable pub request_borrowable : (guest eri product_id : ℕ) → Action ℕ
  unfolding borrow verify_booking_access ◌>>=◌
  request_borrowable guest eri product_id = do
    booking ← verify_booking_access guest eri
    product ←
        or_throw
          (← gets (λ w.
            find
              (λ p.
                p.id == product_id
                && p.property_id == booking.property_id
                && p.is_active
                && is_borrowable p.category)
              w.db.products))
          product_not_found
    inventory ←
        or_throw (← gets (λ w. find (stock_at product.id booking.property_id) w.db.inventory))
          insufficient_stock
    throw_if (leb inventory.available_stock 0) insufficient_stock
    existing ← gets (λ w.
        find
          (λ c.
            c.guest_id == guest
            && c.ezee_reservation_id == eri
            && c.inventory_id == inventory.id
            && is_checked_out c.status)
          w.db.borrowed)
    throw_if (elim existing [ none ↦ false | some c ↦ true ]) bad_request
    checkout ← draw_uuid env
    transaction (borrow checkout inventory.id eri guest)
    invalidate_property_cache env (property booking.property_id)
    pure checkout

  unfoldable pub request_free_service : (guest eri product_id : ℕ) → Action ℕ
  unfolding verify_booking_access ◌>>=◌
  request_free_service guest eri product_id = do
    booking ← verify_booking_access guest eri
    checked_in ← gets (is_checked_in guest eri)
    throw_if (not checked_in) bad_request
    or_throw
        (← gets (λ w.
          find
            (λ p.
              p.id == product_id
              && p.property_id == booking.property_id
              && p.is_active
              && is_service p.category
              && p.base_price == 0)
            w.db.products))
        product_not_found
    ticket ← draw_uuid env
    set_tickets
        λ rows. rows ++ record { id = ticket; ezee_reservation_id = eri; guest_id = guest } ∷ []
    pure ticket
