-- ===== src/System.antt =====
-- A run of the server over a sequence of requests. A request that throws leaves what it has written
-- before.
pub mod Entitled
pub mod Requests
pub mod Balance
pub mod Captured
pub mod Unpaid
pub mod Access
pub mod Reports
use vibehouse_backend.Common.{ℕ, Bool, Option, List, [], ◌∷◌}
use vibehouse_backend.Exec.{pure, ◌>>=◌, ◌>>◌}
use vibehouse_backend.Tables.{Category}
use vibehouse_backend.World.{World, Action, Services}
use vibehouse_backend.System.Requests.{Request}
use vibehouse_backend.AdminInventory.{Actor}
use vibehouse_backend.AdminInventory.Stocktaking.{restock, mark_damaged, update_stock}
use vibehouse_backend.AdminInventory.Products.{create_product, update_product, delete_product}
use vibehouse_backend.AdminInventory.Loans.{checkout_borrowable, verify_return}
use vibehouse_backend.AdminInventory.Returnables.{
  Condition, returnable_issue, returnable_verify_return,
}
use vibehouse_backend.Booking.Rooms.{RoomOption}
use vibehouse_backend.Booking.Orders.{BookingRequest, create_booking_order, confirm_booking}
use vibehouse_backend.Booking.Link.{link_booking}
use vibehouse_backend.Store.Cart.{add_to_cart, update_cart_item, remove_cart_item}
use vibehouse_backend.Store.Requests.{request_borrowable, request_free_service}
use vibehouse_backend.Payment.Open.{create_order, create_booking_payment}
use vibehouse_backend.Payment.Failure.{dev_simulate_fail}
use vibehouse_backend.Payment.Events.{Event, verify_payment, handle_webhook, dev_simulate_capture}
use vibehouse_backend.Kyc.Documents.{delete_document}
use vibehouse_backend.Kyc.Server.{handle_kyc}

-- The handler's answer goes to the client and is left out.
abbrev pub answered {κ} : {A : Type κ} → Action A → Action (Unit {0})
answered m = do m; pure tt

module _ (env : Services) (default_property : ℕ) where
  unfoldable pub handle : Request → Action (Unit {0})
  handle (Request.restock p q a) = restock env p q a
  handle (Request.mark_damaged p q a) = mark_damaged env p q a
  handle (Request.update_stock i t a) = update_stock env i t a
  handle (Request.create_product p c price s t a) = answered (create_product env p c price s t a)
  handle (Request.update_product i p b a) = update_product env i p b a
  handle (Request.delete_product i a) = delete_product env i a
  handle (Request.checkout_borrowable p g e a) = answered (checkout_borrowable env p g e a)
  handle (Request.verify_return i a) = verify_return env i a
  handle (Request.returnable_issue p g e i q a) =
      answered (returnable_issue env default_property p g e i q a)
  handle (Request.returnable_verify_return i c a) =
      answered (returnable_verify_return env default_property i c a)
  handle (Request.create_booking_order g r rooms) = answered (create_booking_order env g r rooms)
  handle (Request.confirm_booking e) = confirm_booking e
  handle (Request.link_booking g e) = answered (link_booking env g e)
  handle (Request.add_to_cart g e p q u) = answered (add_to_cart env g e p q u)
  handle (Request.update_cart_item g e i q) = answered (update_cart_item g e i q)
  handle (Request.remove_cart_item g e i) = answered (remove_cart_item g e i)
  handle (Request.request_borrowable g e p) = answered (request_borrowable env g e p)
  handle (Request.request_free_service g e p) = answered (request_free_service env g e p)
  handle (Request.create_order g e) = answered (create_order env g e)
  handle (Request.create_booking_payment g e t o) = answered (create_booking_payment env g e t o)
  handle (Request.verify_payment g o p s) = answered (verify_payment env g o p s)
  handle (Request.handle_webhook b s e) = answered (handle_webhook env b s e)
  handle (Request.dev_simulate_capture o) = answered (dev_simulate_capture env o)
  handle (Request.dev_simulate_fail o) = answered (dev_simulate_fail env o)
  handle (Request.kyc r) = handle_kyc env r
  handle (Request.delete_document s i p) = delete_document env s i p

  -- The requests one after another.
  unfoldable pub serve : World → List Request → World
  serve w [] = w
  serve w (r ∷ rs) = serve (handle r w).1 rs
