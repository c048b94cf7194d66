-- ===== src/Payment/Balance.antt =====
-- Payments keep the stock balance, whether a request returns or throws.
use vibehouse_backend.Common.{ℕ, Option}
use vibehouse_backend.Exec.Keeps.{Keeps}
use vibehouse_backend.World.{Services}
use vibehouse_backend.World.Frame.Stock.{stock_rules}
use vibehouse_backend.Stock.Balance.{AllBalanced, balance_rules}
use vibehouse_backend.Payment.Open.{create_order, create_booking_payment}
use vibehouse_backend.Payment.Fulfil.{fulfil_order, fulfil_booking_order, fulfil_addon_order}
use vibehouse_backend.Payment.Failure.{handle_payment_failure, fail_payment, dev_simulate_fail}
use vibehouse_backend.Payment.Events.{
  Event, captured, failed, unhandled, verify_payment, handle_event, handle_webhook,
  dev_simulate_capture,
}

ruleset payment_rules = (stock_rules, balance_rules)

module _ (env : Services) where
  pub create_order-balance : (guest_id eri : ℕ) → Keeps AllBalanced (create_order env guest_id eri)
  unfolding create_order
  create_order-balance guest_id eri = search payment_rules depth 40

  pub create_booking_payment-balance :
      (guest_id eri grand_total : ℕ) (addon_order_id : Option ℕ)
      → Keeps AllBalanced (create_booking_payment env guest_id eri grand_total addon_order_id)
  unfolding create_booking_payment
  create_booking_payment-balance guest_id eri grand_total addon_order_id =
      search payment_rules depth 40

  pub fulfil_order-balance : (id : ℕ) (rzp : Option ℕ) → Keeps AllBalanced (fulfil_order env id rzp)
  unfolding fulfil_order fulfil_booking_order fulfil_addon_order
  fulfil_order-balance id rzp = search payment_rules depth 40

  pub handle_payment_failure-balance :
      (razorpay_order : ℕ) → Keeps AllBalanced (handle_payment_failure env razorpay_order)
  unfolding handle_payment_failure fail_payment
  handle_payment_failure-balance razorpay_order = search payment_rules depth 40

  ruleset outcome_rules = (payment_rules, fulfil_order-balance, handle_payment_failure-balance)

  pub dev_simulate_fail-balance :
      (razorpay_order : ℕ) → Keeps AllBalanced (dev_simulate_fail env razorpay_order)
  unfolding dev_simulate_fail
  dev_simulate_fail-balance razorpay_order = search outcome_rules depth 40

  pub verify_payment-balance :
      (guest order payment signature : ℕ)
      → Keeps AllBalanced (verify_payment env guest order payment signature)
  unfolding verify_payment
  verify_payment-balance guest order payment signature = search outcome_rules depth 40

  pub dev_simulate_capture-balance :
      (razorpay_order : ℕ) → Keeps AllBalanced (dev_simulate_capture env razorpay_order)
  unfolding dev_simulate_capture
  dev_simulate_capture-balance razorpay_order = search outcome_rules depth 40

  handle_event-balance : (event : Event) → Keeps AllBalanced (handle_event env event)
  unfolding handle_event
  handle_event-balance (captured order payment) = search outcome_rules depth 40
  handle_event-balance (failed order) = search outcome_rules depth 40
  handle_event-balance unhandled = search outcome_rules depth 40

  pub handle_webhook-balance :
      (body signature : ℕ) (event : Event)
      → Keeps AllBalanced (handle_webhook env body signature event)
  unfolding handle_webhook
  handle_webhook-balance body signature event =
      search (outcome_rules, handle_event-balance) depth 40
