-- ===== src/Tests/Worker.antt =====
-- A booking of two beds and a colive draft, in the worker's hands.
use vibehouse_backend.Common.{
  ◌+◌, ◌≤◌, ◌≡◌, ◌≢◌, refl, true, false, none, some, [], ◌∷◌, find, arith,
}
use vibehouse_backend.Exec.{ok}
use vibehouse_backend.Worker.{SyncBooking, Booker, ParsedRoom, of_booking, EzeeAnswers, Worker}
use vibehouse_backend.Worker.Rooms.{parse_booking_rooms}
use vibehouse_backend.Worker.Handlers.{handle_insert_booking, process_all}
use vibehouse_backend.Worker.Messages.{InsertPayload, insert_message}
use vibehouse_backend.Worker.Pays.{paid}
use vibehouse_backend.Worker.Paid.{handle_insert_booking_lem}
use vibehouse_backend.Worker.Once.{inserts, Numbered}
use vibehouse_backend.Worker.Once.Deliveries.{process_all_once}

abbrev two_beds : ParsedRoom
two_beds = record {
  ezee_room_type_id = some 11;
  ezee_rate_plan_id = some 12;
  ezee_rate_type_id = none;
  quantity = 2;
  price_per_night = 60000;
  guests = none;
}

abbrev booking : SyncBooking
booking = record {
  eri = 1;
  property_id = 1;
  guest_id = some 7;
  checkin_date = some 100;
  checkout_date = some 102;
  booking_rooms = some (two_beds ∷ []);
  room_type_name = none;
  ezee_reservation_no = none;
  ezee_sub_reservation_nos = none;
  room_number = none;
  unit_code = none;
}

abbrev booker : Booker
booker = record { id = 7; name = some (3, 4 ∷ []); email = some 1; phone = none }

abbrev start : Worker
start = record {
  bookings = booking ∷ [];
  bookers = booker ∷ [];
  drafts = record { id = 5; ezee_reservation_no = none; ezee_sync_status = none } ∷ [];
  room_types = [];
  sync_log = [];
  sent = [];
  deleted_keys = [];
}

-- eZee books two sub-reservations, and fails at every FetchSingleBooking and every payment.
abbrev ezee : EzeeAnswers
ezee = record {
  to_insert = λ n. some (record { reservation_no = 30 + n; sub_reservation_nos = 301 ∷ 302 ∷ [] });
  to_process = λ n. true;
  to_fetch = λ n. none;
  to_payment = λ n. false;
}

abbrev message : InsertPayload
message = record { eri = 1; property_id = 1; amount = 240050 }

process_all_once_example :
    let s' = process_all ezee 9 (insert_message message ∷ insert_message message ∷ []) start in
    (inserts (of_booking 1) s'.sent ≤ 1)
    × (inserts (of_booking 1) s'.sent ≢ 0 → Numbered (of_booking 1) s')
process_all_once_example =
    process_all_once (of_booking 1) ezee 9 (insert_message message ∷ insert_message message ∷ [])
      start refl

handle_insert_booking_lem_example :
    let done = handle_insert_booking ezee 9 message start in
    (done.0 ≡ ok tt) × (paid done.1.sent ≡ paid start.sent + 240050)
unfolding find parse_booking_rooms
handle_insert_booking_lem_example =
    handle_insert_booking_lem ezee 9 (λ n. refl) (λ n. refl) message booking 7 booker start refl
      refl refl (omega arith)
