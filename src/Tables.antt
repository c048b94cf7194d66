-- ===== src/Tables.antt =====
-- The rows that the services read and write (prisma/schema.prisma), with the columns that some
-- modelled code tests, copies into another row or changes. Identifiers (uuids, eZee codes, guest
-- and admin ids) are only compared, so they are numbers; so are dates, as days. Money is a number
-- of paise, the unit in which the Decimal(10, 2) columns are exact.
use vibehouse_backend.Common.{ℕ, Bool, true, false, Option, List}
use vibehouse_backend.Common.Int.{ℤ}

-- product_catalog.category
pub data Category : Type 0 where
  commodity service borrowable returnable : Category

abbrev pub is_commodity : Category → Bool
is_commodity commodity = true
is_commodity _ = false

abbrev pub is_borrowable : Category → Bool
is_borrowable borrowable = true
is_borrowable _ = false

abbrev pub is_returnable : Category → Bool
is_returnable returnable = true
is_returnable _ = false

abbrev pub is_service : Category → Bool
is_service service = true
is_service _ = false

pub record Product : Type 0 where
  pub id : ℕ
  pub property_id : ℕ
  pub category : Category
  pub base_price : ℕ
  pub is_active : Bool

-- The CHECK constraints keep every count but `total_stock` at 0 or more.
pub record Inventory : Type 0 where
  pub id : ℕ
  pub property_id : ℕ
  pub product_id : ℕ
  pub total_stock : ℤ
  pub available_stock : ℕ
  pub reserved_stock : ℕ
  pub sold_count : ℕ
  pub damaged_count : ℕ
  pub borrowed_out_count : ℕ
  pub low_stock_threshold : ℕ

-- ezee_booking_cache.status; `other` is null, or a status that eZee reports.
pub data BookingStatus : Type 0 where
  pending_payment confirmed cancelled other : BookingStatus

abbrev pub is_pending_payment : BookingStatus → Bool
is_pending_payment pending_payment = true
is_pending_payment _ = false

abbrev pub is_confirmed : BookingStatus → Bool
is_confirmed confirmed = true
is_confirmed _ = false

pub record Booking : Type 0 where
  pub ezee_reservation_id : ℕ
  pub property_id : ℕ
  pub guest_id : Option ℕ
  pub booker_email : Option ℕ
  pub booker_phone : Option ℕ
  pub checkin_date : ℕ
  pub checkout_date : ℕ
  pub no_of_guests : ℕ
  pub status : BookingStatus
  pub is_active : Bool

-- Of the texts in these two columns the code asks whether they are there and whether they agree.
pub record Guest : Type 0 where
  pub id : ℕ
  pub email : Option ℕ
  pub phone : Option ℕ

pub data Role : Type 0 where
  primary secondary : Role

pub record Access : Type 0 where
  pub id : ℕ
  pub ezee_reservation_id : ℕ
  pub guest_id : ℕ
  pub role : Role
  pub approved : Bool

-- booking_slots.kyc_status and kyc_submissions.status
pub data KycStatus : Type 0 where
  not_started pre_verified verified : KycStatus

abbrev pub is_verified : KycStatus → Bool
is_verified verified = true
is_verified _ = false

-- The names, numbers and addresses of a submission are copied and never tested.
pub record Submission : Type 0 where
  pub id : ℕ
  pub slot_id : Option ℕ
  pub ezee_reservation_id : ℕ
  pub guest_id : ℕ
  pub submitted_by_guest_id : Option ℕ
  pub status : KycStatus
  pub front_image_url : Option ℕ
  pub back_image_url : Option ℕ

pub record Slot : Type 0 where
  pub id : ℕ
  pub ezee_reservation_id : ℕ
  pub slot_number : ℕ
  pub guest_id : Option ℕ
  pub kyc_status : KycStatus

pub data Phase : Type 0 where
  at_booking pre_arrival during_stay : Phase

abbrev pub phase_eq : Phase → Phase → Bool
phase_eq at_booking at_booking = true
phase_eq pre_arrival pre_arrival = true
phase_eq during_stay during_stay = true
phase_eq _ _ = false

-- addon_orders.status
pub data OrderStatus : Type 0 where
  pending paid failed_stock : OrderStatus

abbrev pub is_pending : OrderStatus → Bool
is_pending pending = true
is_pending _ = false

abbrev pub is_paid : OrderStatus → Bool
is_paid paid = true
is_paid _ = false

pub record Order : Type 0 where
  pub id : ℕ
  pub ezee_reservation_id : ℕ
  pub guest_id : ℕ
  pub payment_id : Option ℕ
  pub phase : Phase
  pub status : OrderStatus

pub record Item : Type 0 where
  pub id : ℕ
  pub addon_order_id : ℕ
  pub product_id : ℕ
  pub quantity : ℕ
  pub unit_price : ℕ
  pub total_price : ℕ
  pub unit_code : Option ℕ

-- payments.status
pub data PaymentStatus : Type 0 where
  created captured failed refund_needed : PaymentStatus

abbrev pub is_captured : PaymentStatus → Bool
is_captured captured = true
is_captured _ = false

abbrev pub is_failed : PaymentStatus → Bool
is_failed failed = true
is_failed _ = false

pub data Purpose : Type 0 where
  addon_upsell booking : Purpose

abbrev pub is_booking : Purpose → Bool
is_booking booking = true
is_booking _ = false

pub record Payment : Type 0 where
  pub id : ℕ
  pub ezee_reservation_id : ℕ
  pub guest_id : ℕ
  pub razorpay_order_id : ℕ
  pub razorpay_payment_id : Option ℕ
  pub amount : ℕ
  pub purpose : Purpose
  pub status : PaymentStatus

-- borrowable_checkouts.status, returnable_checkouts.status
pub data CheckoutStatus : Type 0 where
  checked_out overdue issued returned lost : CheckoutStatus

abbrev pub is_checked_out : CheckoutStatus → Bool
is_checked_out checked_out = true
is_checked_out _ = false

abbrev pub is_returned : CheckoutStatus → Bool
is_returned returned = true
is_returned _ = false

abbrev pub is_issued : CheckoutStatus → Bool
is_issued issued = true
is_issued _ = false

pub record Borrowed : Type 0 where
  pub id : ℕ
  pub inventory_id : ℕ
  pub ezee_reservation_id : ℕ
  pub guest_id : ℕ
  pub status : CheckoutStatus

pub record Issued : Type 0 where
  pub id : ℕ
  pub inventory_id : ℕ
  pub addon_order_item_id : ℕ
  pub ezee_reservation_id : ℕ
  pub guest_id : ℕ
  pub quantity : ℕ
  pub status : CheckoutStatus

-- A completed row of checkin_records.
pub record Checkin : Type 0 where
  pub ezee_reservation_id : ℕ
  pub guest_id : ℕ

-- A service request (zoho_ticket_ref).
pub record Ticket : Type 0 where
  pub id : ℕ
  pub ezee_reservation_id : ℕ
  pub guest_id : ℕ

pub record Db : Type 0 where
  pub properties : List ℕ
  pub guests : List Guest
  pub products : List Product
  pub inventory : List Inventory
  pub bookings : List Booking
  pub access : List Access
  pub slots : List Slot
  pub submissions : List Submission
  pub orders : List Order
  pub items : List Item
  pub payments : List Payment
  pub borrowed : List Borrowed
  pub issued : List Issued
  pub checkins : List Checkin
  pub tickets : List Ticket
