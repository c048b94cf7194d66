-- ===== src/System/Reports.antt =====
-- Reports on payments, from the guest's browser, from Razorpay and from the development routes:
-- which of them change nothing.
use vibehouse_backend.Common.{ℕ, ◌≡◌, refl, inl, inr, Option, some, true, ◌==◌, Bool-cases}
use vibehouse_backend.Tables.{Payment, is_captured}
use vibehouse_backend.World.{World, Services}
use vibehouse_backend.Payment.{payment_for}
use vibehouse_backend.Payment.Failure.{handle_payment_failure, dev_simulate_fail}
use vibehouse_backend.Payment.Events.{
  Event, verify_payment, handle_event, handle_webhook, dev_simulate_capture,
}
use vibehouse_backend.System.Requests.{Request}
use vibehouse_backend.System.{handle}

-- A report on a Razorpay order, whatever its signature.
pub data Reports : ℕ → Request → Type 0 where
  verified : {g o n s : ℕ} → Reports o (Request.verify_payment g o n s)
  told :
      {o b s : ℕ} {p : Option ℕ}
      → Reports o (Request.handle_webhook b s (Event.captured (some o) p))
  told_failed : {o b s : ℕ} → Reports o (Request.handle_webhook b s (Event.failed (some o)))
  simulated : {o : ℕ} → Reports o (Request.dev_simulate_capture o)
  simulated_failed : {o : ℕ} → Reports o (Request.dev_simulate_fail o)

module _ (env : Services) (default_property : ℕ) (w : World) where
  -- Once the payment of a Razorpay order is captured, no report on this order changes the world:
  -- neither a second capture, from the browser, a webhook or a simulation, nor a late failure, with
  -- a right signature or a wrong one.
  pub handle-captured :
      {order : ℕ} {p : Payment} {r : Request}
      → Reports order r
      → payment_for order w ≡ some p
      → is_captured p.status ≡ true
      → (handle env default_property r w).1 ≡ w
  unfolding handle verify_payment handle_webhook handle_event dev_simulate_capture dev_simulate_fail
      handle_payment_failure
  handle-captured {p = p} (verified {g} {o} {n} {s}) found done =
      elim (Bool-cases (env.payment_hmac o n == s)) [
        | inl signed ↦ elim (Bool-cases (p.guest_id == g)) [
          | inl own ↦ rw (signed, found, own, done) refl
          | inr other ↦ rw (signed, found, other) refl
        ]
        | inr wrong ↦ rw wrong refl
      ]
  handle-captured (told {o} {b} {s}) found done = elim (Bool-cases (env.webhook_hmac b == s)) [
    | inl signed ↦ rw (signed, found, done) refl
    | inr wrong ↦ rw wrong refl
  ]
  handle-captured (told_failed {o} {b} {s}) found done =
      elim (Bool-cases (env.webhook_hmac b == s)) [
        | inl signed ↦ rw (signed, found, done) refl
        | inr wrong ↦ rw wrong refl
      ]
  handle-captured simulated found done = elim (Bool-cases env.development) [
    | inl on ↦ rw (on, found, done) refl
    | inr off ↦ rw off refl
  ]
  handle-captured simulated_failed found done = elim (Bool-cases env.development) [
    | inl on ↦ rw (on, found, done) refl
    | inr off ↦ rw off refl
  ]
