-- ===== src/Payment/Failure.antt =====
-- A failed payment: `handlePaymentFailure`, `devSimulateFail`.
use vibehouse_backend.Common.{ℕ, not, ◌&&◌, none, holds_id, if◌then◌else◌, update_where}
use vibehouse_backend.Exec.{
  pure, gets, or_throw, throw_if, ◌>>=◌, ◌>>◌, payment_not_found, bad_request,
}
use vibehouse_backend.Tables.{Payment, failed, is_captured, is_failed, is_booking, is_pending}
use vibehouse_backend.World.{
  Action, Services, system, payment_failed, booking_payment_failed, audit_log, set_orders, send,
}
use vibehouse_backend.Booking.Orders.{rollback_pending_booking}
use vibehouse_backend.Payment.{payment_for, settle}

pub data FailureReply : Type 0 where
  cannot_fail already_failed booking_rolled_back cart_available : FailureReply

-- The pending orders that a payment is linked to are free for another payment.
unfoldable pub unlink_orders : ℕ → Action (Unit {0})
unlink_orders payment = set_orders (
    update_where (λ o. holds_id o.payment_id payment && is_pending o.status)
      λ o. record o { payment_id = none })

module _ (env : Services) where
  unfoldable pub fail_payment : Payment → Action FailureReply
  unfolding settle rollback_pending_booking unlink_orders ◌>>=◌
  fail_payment p = do
    settle p.id none failed
    if is_booking p.purpose
        then (do
          rollback_pending_booking p.ezee_reservation_id
          send env (audit_log system p.guest_id booking_payment_failed p.id)
          pure booking_rolled_back)
        else (do
          unlink_orders p.id
          send env (audit_log system p.guest_id payment_failed p.id)
          pure cart_available)

  unfoldable pub handle_payment_failure : ℕ → Action FailureReply
  unfolding ◌>>=◌
  handle_payment_failure razorpay_order = do
    p ← or_throw (← gets (payment_for razorpay_order)) payment_not_found
    if is_captured p.status
        then pure cannot_fail
        else (if is_failed p.status then pure already_failed else fail_payment p)

  unfoldable pub dev_simulate_fail : ℕ → Action FailureReply
  unfolding ◌>>=◌
  dev_simulate_fail razorpay_order = do
    throw_if (not env.development) bad_request
    handle_payment_failure razorpay_order
