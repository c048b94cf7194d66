-- ===== src/Booking.antt =====
-- Bookings (src/guest/booking/guest-booking.service.ts).
pub mod Balance
pub mod Rooms
pub mod Beds
pub mod Availability
pub mod Addons
pub mod Slots
pub mod Orders
pub mod Link
