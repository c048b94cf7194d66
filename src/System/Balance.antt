-- ===== src/System/Balance.antt =====
-- The stock balance over whole runs of the server.
use vibehouse_backend.Common.{ℕ, List, [], ◌∷◌}
use vibehouse_backend.Exec.Keeps.{Keeps, keeps_rules}
use vibehouse_backend.World.{World, Services}
use vibehouse_backend.Stock.Balance.{AllBalanced}
use vibehouse_backend.AdminInventory.Balance.{
  restock-balance, mark_damaged-balance, update_stock-balance, create_product-balance,
  update_product-balance, delete_product-balance, checkout_borrowable-balance,
  verify_return-balance, returnable_issue-balance, returnable_verify_return-balance,
}
use vibehouse_backend.Booking.Balance.{
  create_booking_order-balance, confirm_booking-balance, link_booking-balance,
}
use vibehouse_backend.Store.Balance.{
  add_to_cart-balance, update_cart_item-balance, remove_cart_item-balance,
  request_borrowable-balance, request_free_service-balance,
}
use vibehouse_backend.Payment.Balance.{
  create_order-balance, create_booking_payment-balance, verify_payment-balance,
  handle_webhook-balance, dev_simulate_capture-balance, dev_simulate_fail-balance,
}
use vibehouse_backend.Kyc.Balance.{handle_kyc-balance, delete_document-balance}
use vibehouse_backend.System.Requests.{Request}
use vibehouse_backend.System.{handle, serve}

ruleset system_rules = (
  keeps_rules, restock-balance, mark_damaged-balance, update_stock-balance, create_product-balance,
  update_product-balance, delete_product-balance, checkout_borrowable-balance,
  verify_return-balance, returnable_issue-balance, returnable_verify_return-balance,
  create_booking_order-balance, confirm_booking-balance, link_booking-balance, add_to_cart-balance,
  update_cart_item-balance, remove_cart_item-balance, request_borrowable-balance,
  request_free_service-balance, create_order-balance, create_booking_payment-balance,
  verify_payment-balance, handle_webhook-balance, dev_simulate_capture-balance,
  dev_simulate_fail-balance, handle_kyc-balance, delete_document-balance,
)

module _ (env : Services) (default_property : ℕ) where
  pub handle-balance : (r : Request) → Keeps AllBalanced (handle env default_property r)
  unfolding handle
  handle-balance (Request.restock p q a) = search system_rules
  handle-balance (Request.mark_damaged p q a) = search system_rules
  handle-balance (Request.update_stock i t a) = search system_rules
  handle-balance (Request.create_product p c price s t a) = search system_rules
  handle-balance (Request.update_product i p b a) = search system_rules
  handle-balance (Request.delete_product i a) = search system_rules
  handle-balance (Request.checkout_borrowable p g e a) = search system_rules
  handle-balance (Request.verify_return i a) = search system_rules
  handle-balance (Request.returnable_issue p g e i q a) = search system_rules
  handle-balance (Request.returnable_verify_return i c a) = search system_rules
  handle-balance (Request.create_booking_order g r rooms) = search system_rules
  handle-balance (Request.confirm_booking e) = search system_rules
  handle-balance (Request.link_booking g e) = search system_rules
  handle-balance (Request.add_to_cart g e p q u) = search system_rules
  handle-balance (Request.update_cart_item g e i q) = search system_rules
  handle-balance (Request.remove_cart_item g e i) = search system_rules
  handle-balance (Request.request_borrowable g e p) = search system_rules
  handle-balance (Request.request_free_service g e p) = search system_rules
  handle-balance (Request.create_order g e) = search system_rules
  handle-balance (Request.create_booking_payment g e t o) = search system_rules
  handle-balance (Request.verify_payment g o p s) = search system_rules
  handle-balance (Request.handle_webhook b s e) = search system_rules
  handle-balance (Request.dev_simulate_capture o) = search system_rules
  handle-balance (Request.dev_simulate_fail o) = search system_rules
  handle-balance (Request.kyc r) = search system_rules
  handle-balance (Request.delete_document s i p) = search system_rules

  -- If every row of the inventory balances, that is, its total stock is the sum of its available,
  -- reserved, sold and lent units, then so does every row after any sequence of requests,
  -- whichever of them throw, and whatever the services outside answer.
  pub serve-balance :
      (w : World) (requests : List Request)
      → AllBalanced w
      → AllBalanced (serve env default_property w requests)
  unfolding serve
  serve-balance w [] h = h
  serve-balance w (r ∷ rs) h =
      serve-balance (handle env default_property r w).1 rs ((handle-balance r).after w h)
