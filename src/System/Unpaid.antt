-- ===== src/System/Unpaid.antt =====
-- What it takes for a payment to become captured, over whole runs of the server.
use Prim.{¬◌}
use vibehouse_backend.Common.{
  true, false, not, Bool, refl, ap, sym, ◌∙◌, ℕ, List, [], ◌∷◌, ◌≡◌, ◌≢◌, ◌==◌, ==-eq, Option, some,
  none, All,
}
use vibehouse_backend.Exec.Keeps.{Keeps, Keeps-pure, Keeps-guard, keeps_rules}
use vibehouse_backend.World.{World, Services}
use vibehouse_backend.World.Frame.Payments.{payments_rules}
use vibehouse_backend.AdminInventory.Stocktaking.{restock, mark_damaged, update_stock}
use vibehouse_backend.AdminInventory.Products.{create_product, update_product, delete_product}
use vibehouse_backend.AdminInventory.Loans.{checkout_borrowable, verify_return}
use vibehouse_backend.AdminInventory.Returnables.{returnable_issue, returnable_verify_return}
use vibehouse_backend.Booking.Orders.{create_booking_order, confirm_booking}
use vibehouse_backend.Booking.Link.{link_booking}
use vibehouse_backend.Store.Cart.{add_to_cart, update_cart_item, remove_cart_item}
use vibehouse_backend.Store.Requests.{request_borrowable, request_free_service}
use vibehouse_backend.Kyc.{open_slot}
use vibehouse_backend.Kyc.Slots.{submit_kyc, put_submission, add_slot, delete_slot}
use vibehouse_backend.Kyc.Documents.{delete_document}
use vibehouse_backend.Kyc.Requests.{KycRequest}
use vibehouse_backend.Kyc.Server.{handle_kyc}
use vibehouse_backend.Payment.Events.{
  Event, verify_payment, handle_event, handle_webhook, dev_simulate_capture,
}
use vibehouse_backend.Payment.Unpaid.{
  Unpaid, look_up-Unpaid, found-Unpaid, other_order, fulfil_order-Unpaid,
  handle_payment_failure-Unpaid, dev_simulate_fail-Unpaid, create_order-Unpaid,
  create_booking_payment-Unpaid,
}
use vibehouse_backend.System.Captured.{elsewhere_rules}
use vibehouse_backend.System.Requests.{Request}
use vibehouse_backend.System.{handle, serve}

module _ (env : Services) (order : ℕ) where
  -- A report that the Razorpay order was paid: signed, or simulated on a development server.
  pub data ReportsPaid : Request → Type 0 where
    verified :
        {g p s : ℕ}
        → env.payment_hmac order p ≡ s
        → ReportsPaid (Request.verify_payment g order p s)
    told :
        {b s : ℕ} {p : Option ℕ}
        → env.webhook_hmac b ≡ s
        → ReportsPaid (Request.handle_webhook b s (Event.captured (some order) p))
    simulated : env.development ≡ true → ReportsPaid (Request.dev_simulate_capture order)

passes : (test : Bool) → not test ≡ false → test ≡ true
passes true h = refl
passes false h = absurd (cc)

module _ (env : Services) (id order : ℕ) where
  verify_payment-Unpaid :
      (g o p s : ℕ)
      → ¬ ReportsPaid env order (Request.verify_payment g o p s)
      → Keeps (Unpaid id order) (verify_payment env g o p s)
  unfolding verify_payment
  verify_payment-Unpaid g o p s unsaid = Keeps-guard _ _ _ λ passed.
      let right : env.payment_hmac o p ≡ s = ==-eq _ _ (passes _ passed) in
      let differs : o ≢ order = λ same.
        unsaid
          (rw same (ReportsPaid.verified (ap (λ n. env.payment_hmac n p) (sym same) ∙ right))) in
      look_up-Unpaid id order (λ p. p.razorpay_order_id == o) _ _ (other_order id order o differs)
        λ q other. search (keeps_rules, fulfil_order-Unpaid, other) depth 20

  handle_event-Unpaid :
      (b s : ℕ) (e : Event)
      → env.webhook_hmac b ≡ s
      → ¬ ReportsPaid env order (Request.handle_webhook b s e)
      → Keeps (Unpaid id order) (handle_event env e)
  unfolding handle_event
  handle_event-Unpaid b s (Event.captured none p) signed unsaid = search keeps_rules
  handle_event-Unpaid b s (Event.captured (some o) p) signed unsaid =
      let differs : o ≢ order = λ same. unsaid (rw same (ReportsPaid.told signed)) in
      found-Unpaid id order (λ p. p.razorpay_order_id == o) _ _ (other_order id order o differs)
        (λ q other. search (keeps_rules, fulfil_order-Unpaid, other) depth 20) (Keeps-pure _)
  handle_event-Unpaid b s (Event.failed o) signed unsaid =
      search (keeps_rules, handle_payment_failure-Unpaid)
  handle_event-Unpaid b s Event.unhandled signed unsaid = search keeps_rules

  handle_webhook-Unpaid :
      (b s : ℕ) (e : Event)
      → ¬ ReportsPaid env order (Request.handle_webhook b s e)
      → Keeps (Unpaid id order) (handle_webhook env b s e)
  unfolding handle_webhook
  handle_webhook-Unpaid b s e unsaid =
      Keeps-guard _ _ _ λ passed. handle_event-Unpaid b s e (==-eq _ _ (passes _ passed)) unsaid

  dev_simulate_capture-Unpaid :
      (o : ℕ)
      → ¬ ReportsPaid env order (Request.dev_simulate_capture o)
      → Keeps (Unpaid id order) (dev_simulate_capture env o)
  unfolding dev_simulate_capture
  dev_simulate_capture-Unpaid o unsaid = Keeps-guard _ _ _ λ passed.
      let differs : o ≢ order =
        λ same. unsaid (rw same (ReportsPaid.simulated (passes _ passed))) in
      look_up-Unpaid id order (λ p. p.razorpay_order_id == o) _ _ (other_order id order o differs)
        λ q other. search (payments_rules, fulfil_order-Unpaid, other) depth 20

module _ (env : Services) (default_property id order : ℕ) (fresh : (n : ℕ) → env.uuid n ≢ id) where
  handle-Unpaid :
      (r : Request)
      → ¬ ReportsPaid env order r
      → Keeps (Unpaid id order) (handle env default_property r)
  unfolding handle restock mark_damaged update_stock create_product update_product delete_product
      checkout_borrowable verify_return returnable_issue returnable_verify_return
      create_booking_order confirm_booking link_booking add_to_cart update_cart_item
      remove_cart_item request_borrowable request_free_service handle_kyc submit_kyc put_submission
      add_slot delete_slot open_slot delete_document
  handle-Unpaid (Request.create_order g e) u = search (keeps_rules, create_order-Unpaid, fresh)
  handle-Unpaid (Request.create_booking_payment g e t o) u =
      search (keeps_rules, create_booking_payment-Unpaid, fresh)
  handle-Unpaid (Request.verify_payment g o p s) u =
      search (keeps_rules, verify_payment-Unpaid env id order g o p s u)
  handle-Unpaid (Request.handle_webhook b s e) u =
      search (keeps_rules, handle_webhook-Unpaid env id order b s e u)
  handle-Unpaid (Request.dev_simulate_capture o) u =
      search (keeps_rules, dev_simulate_capture-Unpaid env id order o u)
  handle-Unpaid (Request.dev_simulate_fail o) u = search (keeps_rules, dev_simulate_fail-Unpaid)
  handle-Unpaid (Request.kyc (KycRequest.submit_kyc t g e s d)) u = search elsewhere_rules depth 40
  handle-Unpaid (Request.kyc (KycRequest.add_slot g e)) u = search elsewhere_rules depth 40
  handle-Unpaid (Request.kyc (KycRequest.delete_slot g e s)) u = search elsewhere_rules depth 40
  handle-Unpaid _ u = search elsewhere_rules depth 40

-- A payment becomes captured only by a report that its Razorpay order was paid, whose signature is
-- right, or that is simulated on a development server: as long as no request is such a report about
-- the order, every payment with the id stays one of that order and not captured, whatever else is
-- requested, reports with wrong signatures, about other orders or of failures included. It is assumed
-- that no uuid that is drawn is the id.
pub serve-Unpaid :
    (env : Services) (default_property id order : ℕ) (w : World) (requests : List Request)
    → ((n : ℕ) → env.uuid n ≢ id)
    → All (λ r. ¬ ReportsPaid env order r) requests
    → Unpaid id order w
    → Unpaid id order (serve env default_property w requests)
unfolding serve
serve-Unpaid env d id order w [] fresh unsaid h = h
serve-Unpaid env d id order w (r ∷ rs) fresh unsaid h =
    serve-Unpaid env d id order (handle env d r w).1 rs fresh unsaid.1
      ((handle-Unpaid env d id order fresh r unsaid.0).after w h)
