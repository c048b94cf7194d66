-- ===== src/System/Access.antt =====
-- Requests about a booking that the guest has no approved access to.
use vibehouse_backend.Common.{ℕ, ◌≡◌, refl, none}
use vibehouse_backend.Exec.{Error, err, forbidden, bad_request}
use vibehouse_backend.World.{World, Services}
use vibehouse_backend.Booking.Link.{approved_access}
use vibehouse_backend.Tables.{Booking}
use vibehouse_backend.Store.Cart.{add_to_cart, update_cart_item, remove_cart_item}
use vibehouse_backend.Store.Requests.{request_borrowable, request_free_service}
use vibehouse_backend.Store.{verify_booking_access}
use vibehouse_backend.Payment.Open.{create_order}
use vibehouse_backend.System.Requests.{Request}

-- How a request that needs access to a booking is refused, its guest and its booking: the store
-- answers 403, the payment service 400.
pub data Guarded : Error → ℕ → ℕ → Request → Type 0 where
  adds : {g e p q u : ℕ} → Guarded forbidden g e (Request.add_to_cart g e p q u)
  updates : {g e i q : ℕ} → Guarded forbidden g e (Request.update_cart_item g e i q)
  removes : {g e i : ℕ} → Guarded forbidden g e (Request.remove_cart_item g e i)
  borrows : {g e p : ℕ} → Guarded forbidden g e (Request.request_borrowable g e p)
  asks : {g e p : ℕ} → Guarded forbidden g e (Request.request_free_service g e p)
  pays : {g e : ℕ} → Guarded bad_request g e (Request.create_order g e)

module _ (env : Services) (default_property g e : ℕ) (w : World) where
  locked : approved_access e g w ≡ none → verify_booking_access g e w ≡ (err forbidden, w)
  unfolding verify_booking_access
  locked h = rw h refl
