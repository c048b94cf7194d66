-- ===== src/Payment.antt =====
-- Payments (src/payment/payment.service.ts). Razorpay takes the money; this code opens an order
-- there, and learns of the outcome twice, from the guest's browser and from a webhook.
pub mod Balance
pub mod Captured
pub mod Unpaid
pub mod Open
pub mod Fulfil
pub mod Failure
pub mod Events
use vibehouse_backend.Common.{
  ℕ, Bool, true, false, Option, none, some, List, [], ◌∷◌, ◌++◌, ◌==◌, find, update_where,
}
use vibehouse_backend.Exec.{gets, throw_if, ◌>>=◌, ◌>>◌, unique_violation}
use vibehouse_backend.Tables.{Payment, PaymentStatus}
use vibehouse_backend.World.{World, Action, set_payments}

abbrev pub payment_of : ℕ → World → Option Payment
payment_of id w = find (λ p. p.id == id) w.db.payments

abbrev pub payment_for : ℕ → World → Option Payment
payment_for razorpay_order w = find (λ p. p.razorpay_order_id == razorpay_order) w.db.payments

-- `payments.create`: the Razorpay order's id is a unique column.
unfoldable pub create_payment : Payment → Action (Unit {0})
unfolding ◌>>=◌
create_payment p = do
  clash ← gets (payment_for p.razorpay_order_id)
  throw_if (elim clash [ none ↦ false | some c ↦ true ]) unique_violation
  set_payments λ rows. rows ++ p ∷ []

-- Prisma leaves a column as it is where the value is `undefined`.
abbrev given_id : Option ℕ → Option ℕ → Option ℕ
given_id none old = old
given_id (some id) old = some id

abbrev pub settled : Option ℕ → PaymentStatus → Payment → Payment
settled razorpay_payment status p = record p {
  razorpay_payment_id = given_id razorpay_payment p.razorpay_payment_id;
  status = status;
}

-- `payments.update` of the id and the status.
unfoldable pub settle : ℕ → Option ℕ → PaymentStatus → Action (Unit {0})
settle id razorpay_payment status =
    set_payments (update_where (λ p. p.id == id) (settled razorpay_payment status))
