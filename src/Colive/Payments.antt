-- ===== src/Colive/Payments.antt =====
-- `createColiveOrder` and `verifyColivePayment`.
use vibehouse_backend.Common.{
  ℕ, ◌-◌, not, Option, none, some, [], ◌∷◌, ◌++◌, ◌==◌, leb, length, find, holds_id, update_where,
  if◌then◌else◌,
}
use vibehouse_backend.Exec.{
  ok, pure, gets, or_throw, throw_if, ◌>>=◌, ◌>>◌, bad_request, draft_not_found, bad_signature,
  gateway_error,
}
use vibehouse_backend.Colive.{
  ColiveQuote, pending_payment, confirmed, is_confirmed, ColiveDraft, RoomPrice, ColiveInsert,
  ColiveServices, Stay, draw_stay_uuid, set_drafts,
}
use vibehouse_backend.Colive.Quotes.{find_quote, find_stay, differ}

abbrev pub write_draft : ℕ → (ColiveDraft → ColiveDraft) → Stay (Unit {0})
write_draft id f = set_drafts (update_where (λ d. d.id == id) f)

unfoldable pub queue_insert : ColiveInsert → Stay (Unit {0})
queue_insert i s = (ok tt, record s { inserts = s.inserts ++ i ∷ [] })

unfoldable pub add_order : ℕ → Stay (Unit {0})
add_order amount s = (ok tt, record s { orders = s.orders ++ amount ∷ [] })

abbrev pub one_or : ℕ → ℕ
one_or n = if leb n 1 then 1 else n

abbrev pub price_of : Option RoomPrice → ℕ
price_of none = 0
price_of (some r) = r.base_price_per_night

-- A quote keeps the rate of eZee; 0 is falsy only before `Number`, so it stands.
abbrev pub rate_per_night : Option ColiveQuote → Option RoomPrice → ℕ
rate_per_night none room = price_of room
rate_per_night (some q) room = q.ezee_rate_per_night

unfoldable pub insert_of : ColiveDraft → (rate : ℕ) → ColiveInsert
insert_of d rate = record {
  draft_booking_id = d.id;
  property_id = d.property_id;
  room_type_id = d.room_type_id;
  move_in_date = d.move_in_date;
  move_out_date = d.estimated_checkout;
  rate_per_night = rate;
  total_nights = one_or (d.estimated_checkout - d.move_in_date);
  amount = d.charges.grand_total;
}

module _ (env : ColiveServices) where
  -- `razorpay.orders.create`, which may throw.
  unfoldable pub create_stay_order : ℕ → Stay ℕ
  unfolding ◌>>=◌
  create_stay_order amount = do
    answer ← gets (λ s. env.order_id (length s.orders))
    order ← or_throw answer gateway_error
    add_order amount
    pure order

  -- The total is what the guest's request says.
  unfoldable pub create_colive_order : (guest draft_id grand_total : ℕ) → Stay ℕ
  unfolding ◌>>=◌
  create_colive_order guest id total = do
    throw_if (total == 0) bad_request
    found ← gets (find_stay id)
    d ← or_throw found draft_not_found
    throw_if (differ (some guest) d.guest_id) bad_request
    throw_if (is_confirmed d.status) bad_request
    order ← create_stay_order total
    write_draft id λ row. record row {
      status = pending_payment;
      razorpay_order_id = some order;
      guest_id = some guest;
    }
    pure order

  -- What is answered is the id of the payment record; it was one already, or it is new.
  unfoldable pub confirm_draft : ColiveDraft → Stay (Option ℕ)
  unfolding ◌>>=◌
  confirm_draft d = do
    room ← gets (λ s. find (λ r. r.id == d.room_type_id) s.room_prices)
    quote ← gets (find_quote d.quote_id)
    payment ← draw_stay_uuid env
    write_draft d.id λ row. record row { status = confirmed; payment_id = some payment }
    queue_insert (insert_of d (rate_per_night quote room))
    pure (some payment)

  unfoldable pub verify_colive_payment :
      (draft_id order_id payment_id signature : ℕ) → Stay (Option ℕ)
  unfolding ◌>>=◌
  verify_colive_payment id order payment signature = do
    throw_if (not (env.signature order payment == signature)) bad_signature
    found ← gets (find_stay id)
    d ← or_throw found draft_not_found
    throw_if (not (holds_id d.razorpay_order_id order)) bad_request
    if is_confirmed d.status then pure d.payment_id else confirm_draft d
