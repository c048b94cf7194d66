-- ===== src/Payment/Events.antt =====
-- How the outcome of a payment arrives: `verifyPayment`, `handleWebhook`, `devSimulateCapture`.
use vibehouse_backend.Common.{ℕ, not, Option, some, ◌==◌, if◌then◌else◌}
use vibehouse_backend.Exec.{
  pure, gets, if_found, or_throw, throw_if, ◌>>=◌, ◌>>◌, payment_not_found, bad_signature,
  not_this_guest, bad_request,
}
use vibehouse_backend.Tables.{is_captured}
use vibehouse_backend.World.{Action, Services, draw_uuid}
use vibehouse_backend.Payment.{payment_for}
use vibehouse_backend.Payment.Fulfil.{Fulfilment, already_captured, fulfil_order}
use vibehouse_backend.Payment.Failure.{handle_payment_failure}

-- The event of a webhook body, with the ids that the code picks out of it. `captured` stands for
-- 'payment.captured' and 'order.paid'.
pub data Event : Type 0 where
  captured : (order payment : Option ℕ) → Event
  failed : (order : Option ℕ) → Event
  unhandled : Event

pub data WebhookReply : Type 0 where
  ignored already_done done failure_recorded : WebhookReply

module _ (env : Services) where
  unfoldable pub verify_payment :
      (guest razorpay_order razorpay_payment signature : ℕ) → Action Fulfilment
  unfolding ◌>>=◌
  verify_payment guest razorpay_order razorpay_payment signature = do
    throw_if (not (env.payment_hmac razorpay_order razorpay_payment == signature)) bad_signature
    p ← or_throw (← gets (payment_for razorpay_order)) payment_not_found
    throw_if (not (p.guest_id == guest)) not_this_guest
    if is_captured p.status
        then pure already_captured
        else fulfil_order env p.id (some razorpay_payment)

  -- The switch over the event.
  unfoldable pub handle_event : Event → Action WebhookReply
  unfolding ◌>>=◌
  handle_event (captured order payment) =
      if_found order
        (λ order. do
          found ← gets (payment_for order)
          if_found found
              (λ p.
                if is_captured p.status
                then pure already_done
                else (do fulfil_order env p.id payment; pure done))
              (pure ignored))
        (pure ignored)
  handle_event (failed order) =
      if_found order (λ order. do handle_payment_failure env order; pure failure_recorded)
        (pure failure_recorded)
  handle_event unhandled = pure ignored

  -- `body` is the raw text, `event` what `JSON.parse` makes of it.
  unfoldable pub handle_webhook : (body signature : ℕ) → Event → Action WebhookReply
  unfolding ◌>>=◌
  handle_webhook body signature event = do
    throw_if (not (env.webhook_hmac body == signature)) bad_signature
    handle_event event

  unfoldable pub dev_simulate_capture : ℕ → Action Fulfilment
  unfolding ◌>>=◌
  dev_simulate_capture razorpay_order = do
    throw_if (not env.development) bad_request
    p ← or_throw (← gets (payment_for razorpay_order)) payment_not_found
    if is_captured p.status
        then pure already_captured
        else (do sim ← draw_uuid env; fulfil_order env p.id (some sim))
