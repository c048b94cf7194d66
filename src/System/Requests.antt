-- ===== src/System/Requests.antt =====
-- The requests that the services answer, one constructor for each modelled handler.
use vibehouse_backend.Common.{ℕ, Bool, Option, List}
use vibehouse_backend.Tables.{Category}
use vibehouse_backend.AdminInventory.{Actor}
use vibehouse_backend.AdminInventory.Returnables.{Condition}
use vibehouse_backend.Booking.Rooms.{RoomOption}
use vibehouse_backend.Booking.Orders.{BookingRequest}
use vibehouse_backend.Payment.Events.{Event}
use vibehouse_backend.Kyc.Documents.{ImageType}
use vibehouse_backend.Kyc.Requests.{KycRequest}

pub data Request : Type 0 where
  restock mark_damaged : (product quantity : ℕ) → Actor → Request
  update_stock : ℕ → Option ℕ → Actor → Request
  create_product : ℕ → Category → (price : ℕ) → (stock threshold : Option ℕ) → Actor → Request
  update_product : ℕ → Option ℕ → Option Bool → Actor → Request
  delete_product : ℕ → Actor → Request
  checkout_borrowable : (product guest eri : ℕ) → Actor → Request
  verify_return : ℕ → Actor → Request
  returnable_issue : (product guest eri item : ℕ) → Option ℕ → Actor → Request
  returnable_verify_return : ℕ → Condition → Actor → Request
  create_booking_order : (guest : ℕ) → BookingRequest → List RoomOption → Request
  confirm_booking : (eri : ℕ) → Request
  link_booking : (guest eri : ℕ) → Request
  add_to_cart : (guest eri product quantity unit : ℕ) → Request
  update_cart_item : (guest eri item quantity : ℕ) → Request
  remove_cart_item : (guest eri item : ℕ) → Request
  request_borrowable request_free_service : (guest eri product : ℕ) → Request
  create_order : (guest eri : ℕ) → Request
  create_booking_payment : (guest eri total : ℕ) → Option ℕ → Request
  verify_payment : (guest order payment signature : ℕ) → Request
  handle_webhook : (body signature : ℕ) → Event → Request
  dev_simulate_capture dev_simulate_fail : (order : ℕ) → Request
  kyc : KycRequest → Request
  delete_document : (slot : ℕ) → ImageType → Option ℕ → Request
