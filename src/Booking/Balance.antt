-- ===== src/Booking/Balance.antt =====
-- Bookings keep the stock balance, whether a request returns or throws.
use vibehouse_backend.Common.{ℕ, List, [], ◌∷◌}
use vibehouse_backend.Exec.Keeps.{Keeps}
use vibehouse_backend.Tables.{Booking}
use vibehouse_backend.World.{Services}
use vibehouse_backend.World.Frame.Stock.{stock_rules}
use vibehouse_backend.Stock.Balance.{AllBalanced, balance_rules}
use vibehouse_backend.Booking.Rooms.{RoomOption}
use vibehouse_backend.Booking.Addons.{
  AddonSelection, AddonTotals, ValidatedAddon, validate_addons, release_addon_inventory,
  finalize_addon_inventory,
}
use vibehouse_backend.Booking.Orders.{
  BookingRequest, persist_booking, create_booking_order, rollback_pending_booking, confirm_booking,
}
use vibehouse_backend.Booking.Slots.{create_booking_slots, ensure_slots}
use vibehouse_backend.Booking.Link.{link_booking, get_checkin_status}

ruleset booking_rules = (stock_rules, balance_rules)

-- The validation only reads.
validate_addons-balance :
    (property_id : ℕ) (addons : List AddonSelection) (t : AddonTotals)
    → Keeps AllBalanced (validate_addons property_id addons t)
unfolding validate_addons
validate_addons-balance property_id [] t = search booking_rules
validate_addons-balance property_id (a ∷ addons) t =
    search (booking_rules, validate_addons-balance property_id addons) depth 30

ruleset order_rules = (booking_rules, validate_addons-balance)

pub release_addon_inventory-balance :
    (eri property_id : ℕ) → Keeps AllBalanced (release_addon_inventory eri property_id)
unfolding release_addon_inventory
release_addon_inventory-balance eri property_id = search booking_rules depth 40

pub finalize_addon_inventory-balance :
    (eri property_id : ℕ) → Keeps AllBalanced (finalize_addon_inventory eri property_id)
unfolding finalize_addon_inventory
finalize_addon_inventory-balance eri property_id = search booking_rules depth 40

pub rollback_pending_booking-balance : (eri : ℕ) → Keeps AllBalanced (rollback_pending_booking eri)
unfolding rollback_pending_booking
rollback_pending_booking-balance eri = search booking_rules depth 40

pub confirm_booking-balance : (eri : ℕ) → Keeps AllBalanced (confirm_booking eri)
unfolding confirm_booking
confirm_booking-balance eri = search booking_rules depth 40

pub get_checkin_status-balance : (guest eri : ℕ) → Keeps AllBalanced (get_checkin_status guest eri)
unfolding get_checkin_status
get_checkin_status-balance guest eri = search booking_rules depth 40

module _ (env : Services) where
  pub create_booking_slots-balance :
      (eri total_guests guest : ℕ)
      → Keeps AllBalanced (create_booking_slots env eri total_guests guest)
  unfolding create_booking_slots
  create_booking_slots-balance eri total_guests guest = search order_rules depth 40

  pub ensure_slots-balance :
      (eri guest guests : ℕ) → Keeps AllBalanced (ensure_slots env eri guest guests)
  unfolding ensure_slots
  ensure_slots-balance eri guest guests = search order_rules depth 40

  pub persist_booking-balance :
      (guest : ℕ) (b : Booking) (addons : List ValidatedAddon)
      → Keeps AllBalanced (persist_booking env guest b addons)
  unfolding persist_booking
  persist_booking-balance guest b addons =
      search (order_rules, create_booking_slots-balance) depth 40

  pub create_booking_order-balance :
      (guest : ℕ) (dto : BookingRequest) (available : List RoomOption)
      → Keeps AllBalanced (create_booking_order env guest dto available)
  unfolding create_booking_order
  create_booking_order-balance guest dto available =
      search (order_rules, persist_booking-balance) depth 40

  pub link_booking-balance : (guest eri : ℕ) → Keeps AllBalanced (link_booking env guest eri)
  unfolding link_booking
  link_booking-balance guest eri = search (order_rules, ensure_slots-balance) depth 40
