-- ===== src/System/Captured.antt =====
-- What happens to a captured payment over whole runs of the server: nothing.
use vibehouse_backend.Common.{ℕ, List, [], ◌∷◌, ◌≡◌, ◌≢◌}
use vibehouse_backend.Exec.Keeps.{Keeps, keeps_rules}
use vibehouse_backend.Tables.{Payment, captured}
use vibehouse_backend.World.{World, Services}
use vibehouse_backend.World.Frame.Payments.{Payments, payments_rules}
use vibehouse_backend.AdminInventory.Stocktaking.{restock, mark_damaged, update_stock}
use vibehouse_backend.AdminInventory.Products.{create_product, update_product, delete_product}
use vibehouse_backend.AdminInventory.Loans.{checkout_borrowable, verify_return}
use vibehouse_backend.AdminInventory.Returnables.{returnable_issue, returnable_verify_return}
use vibehouse_backend.Booking.Addons.{AddonSelection, AddonTotals, ValidatedAddon, validate_addons}
use vibehouse_backend.Booking.Slots.{create_booking_slots, ensure_slots}
use vibehouse_backend.Booking.Orders.{persist_booking, create_booking_order, confirm_booking}
use vibehouse_backend.Booking.Link.{link_booking}
use vibehouse_backend.Tables.{Booking}
use vibehouse_backend.Store.Cart.{add_to_cart, update_cart_item, remove_cart_item}
use vibehouse_backend.Store.Requests.{request_borrowable, request_free_service}
use vibehouse_backend.Payment.Captured.{
  Recorded, verify_payment-Recorded, handle_webhook-Recorded, dev_simulate_capture-Recorded,
  dev_simulate_fail-Recorded, create_order-Recorded, create_booking_payment-Recorded,
}
use vibehouse_backend.Kyc.{open_slot}
use vibehouse_backend.Kyc.Slots.{submit_kyc, put_submission, add_slot, delete_slot}
use vibehouse_backend.Kyc.Documents.{delete_document}
use vibehouse_backend.Kyc.Requests.{KycRequest}
use vibehouse_backend.Kyc.Server.{handle_kyc}
use vibehouse_backend.System.Requests.{Request}
use vibehouse_backend.System.{handle, serve}

-- The handlers outside src/payment never write the table `payments`.
module _ {Q : List Payment → Type 0} where
  pub validate_addons-Payments :
      (property_id : ℕ) (addons : List AddonSelection) (t : AddonTotals)
      → Keeps (Payments Q) (validate_addons property_id addons t)
  unfolding validate_addons
  validate_addons-Payments property_id [] t = search payments_rules
  validate_addons-Payments property_id (a ∷ addons) t =
      search (payments_rules, validate_addons-Payments property_id addons) depth 30

  create_booking_slots-Payments :
      (env : Services) (eri n guest : ℕ) → Keeps (Payments Q) (create_booking_slots env eri n guest)
  unfolding create_booking_slots
  create_booking_slots-Payments env eri n guest = search payments_rules

  pub ensure_slots-Payments :
      (env : Services) (eri guest n : ℕ) → Keeps (Payments Q) (ensure_slots env eri guest n)
  unfolding ensure_slots
  ensure_slots-Payments env eri guest n = search payments_rules depth 20

  pub persist_booking-Payments :
      (env : Services) (guest : ℕ) (b : Booking) (addons : List ValidatedAddon)
      → Keeps (Payments Q) (persist_booking env guest b addons)
  unfolding persist_booking
  persist_booking-Payments env guest b addons =
      search (payments_rules, create_booking_slots-Payments) depth 40

-- Whatever holds of the payments does after any of them.
pub ruleset elsewhere_rules =
    (payments_rules, validate_addons-Payments, ensure_slots-Payments, persist_booking-Payments)

module _ (env : Services) (default_property : ℕ) (row : Payment) (done : row.status ≡ captured)
    (fresh : (n : ℕ) → env.uuid n ≢ row.id) where
  ruleset payment_rules = (
    keeps_rules, verify_payment-Recorded, handle_webhook-Recorded, dev_simulate_capture-Recorded,
    dev_simulate_fail-Recorded, create_order-Recorded, create_booking_payment-Recorded,
  )

  handle-Recorded : (r : Request) → Keeps (Recorded row) (handle env default_property r)
  unfolding handle restock mark_damaged update_stock create_product update_product delete_product
      checkout_borrowable verify_return returnable_issue returnable_verify_return
      create_booking_order confirm_booking link_booking add_to_cart update_cart_item
      remove_cart_item request_borrowable request_free_service handle_kyc submit_kyc put_submission
      add_slot delete_slot open_slot delete_document
  handle-Recorded (Request.create_order g e) = search (payment_rules, fresh)
  handle-Recorded (Request.create_booking_payment g e t o) = search (payment_rules, fresh)
  handle-Recorded (Request.verify_payment g o p s) = search payment_rules
  handle-Recorded (Request.handle_webhook b s e) = search payment_rules
  handle-Recorded (Request.dev_simulate_capture o) = search payment_rules
  handle-Recorded (Request.dev_simulate_fail o) = search payment_rules
  handle-Recorded (Request.kyc (KycRequest.submit_kyc t g e s d)) = search elsewhere_rules depth 40
  handle-Recorded (Request.kyc (KycRequest.add_slot g e)) = search elsewhere_rules depth 40
  handle-Recorded (Request.kyc (KycRequest.delete_slot g e s)) = search elsewhere_rules depth 40
  handle-Recorded _ = search elsewhere_rules depth 40

-- A payment that is captured stays as it is through any sequence of requests, duplicate and late
-- webhooks included: if the table holds that captured row, and no other with its id, then it still
-- does after them. It is assumed that no uuid that is drawn is the id.
pub serve-Recorded :
    (env : Services) (default_property : ℕ) (row : Payment) (w : World) (requests : List Request)
    → row.status ≡ captured
    → ((n : ℕ) → env.uuid n ≢ row.id)
    → Recorded row w
    → Recorded row (serve env default_property w requests)
unfolding serve
serve-Recorded env d row w [] done fresh h = h
serve-Recorded env d row w (r ∷ rs) done fresh h =
    serve-Recorded env d row (handle env d r w).1 rs done fresh
      ((handle-Recorded env d row done fresh r).after w h)
