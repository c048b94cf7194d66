-- ===== src/Worker/Handlers.antt =====
-- The handlers of the messages, and `process`, which chooses one.
use vibehouse_backend.Common.{
  ℕ, suc, ◌-◌, ◌*◌, ◌/◌, false, Option, none, some, List, [], ◌∷◌, map, ◌==◌, length, find, sum_of,
  update_where,
}
use vibehouse_backend.Exec.{
  ok, pure, gets, or_throw, throw_if, if_found, ◌>>=◌, ◌>>◌, no_room_selections, not_synced,
  no_ezee_room_type, bad_request,
}
use vibehouse_backend.Worker.{
  SyncBooking, Booker, male, partly_synced, synced, failed_sync, Draft, RoomTypeRow, of_booking,
  of_draft, insert_action, charge_action, colive_action, success, failure, BookingInput, Target,
  empty_text, reservation, Inserted, EzeeAnswers, Worker, Job, set_bookings, set_drafts, delete_key,
  create_sync_log, update_sync_log, on_error, call_insert, call_process, call_payment, call_fetch,
}
use vibehouse_backend.Worker.Rooms.{
  or_else, or_value, parse_booking_rooms, build_ezee_rooms, calc_nights,
}
use vibehouse_backend.Worker.Messages.{
  ChargeItem, ChargePayload, ColivePayload, InsertPayload, SyncMessage, charge_message,
  colive_message, insert_message, unknown_message, update_message,
}

abbrev pub find_booking : ℕ → Worker → Option SyncBooking
find_booking eri s = find (λ b. b.eri == eri) s.bookings

abbrev pub write_booking : ℕ → (SyncBooking → SyncBooking) → Job (Unit {0})
write_booking eri f = set_bookings (update_where (λ b. b.eri == eri) f)

abbrev pub find_draft : ℕ → Worker → Option Draft
find_draft id s = find (λ d. d.id == id) s.drafts

abbrev pub write_draft : ℕ → (Draft → Draft) → Job (Unit {0})
write_draft id f = set_drafts (update_where (λ d. d.id == id) f)

-- An exception that is only logged.
unfoldable pub quietly : Job (Unit {0}) → Job (Unit {0})
quietly act s = (ok tt, (act s).1)

-- `subReservationNos.length > 0 ? subReservationNos : [reservationNo]`
abbrev pub payment_targets : Inserted → List Target
payment_targets r = elim r.sub_reservation_nos [
  | [] ↦ reservation r.reservation_no ∷ []
  | n ∷ ns ↦ map reservation (n ∷ ns)
]

-- `Math.floor(amount / n)`, in whole rupees.
unfoldable pub amount_per_bed : ℕ → ℕ → ℕ
amount_per_bed amount n = 100 * (amount / (100 * n))

-- `booking.ezee_reservation_no`, with the sub-reservations of the column.
abbrev pub inserted_before : SyncBooking → ℕ → Inserted
inserted_before b number = record {
  reservation_no = number;
  sub_reservation_nos = or_value b.ezee_sub_reservation_nos [];
}

abbrev pub default_name : Option (ℕ × List ℕ) → ℕ → ℕ × List ℕ
default_name none guest_word = (guest_word, [])
default_name (some name) guest_word = name

abbrev pub last_name_of : ℕ × List ℕ → List ℕ
last_name_of (first, []) = first ∷ []
last_name_of (first, word ∷ words) = word ∷ words

abbrev pub number_booking : Inserted → SyncBooking → SyncBooking
number_booking r b = record b {
  ezee_reservation_no = some r.reservation_no;
  ezee_sub_reservation_nos = some r.sub_reservation_nos;
}

-- `''.split(',')[0]` is the empty text.
abbrev pub first_target : List ℕ → Target
first_target [] = empty_text
first_target (n ∷ ns) = reservation n

abbrev pub charge_target : Option (List ℕ) → ℕ → Target
charge_target none number = reservation number
charge_target (some ns) number = first_target ns

abbrev pub of_items : ChargeItem → ℕ
of_items i = i.amount * i.quantity

module _ (ezee : EzeeAnswers) (guest_word : ℕ) where
  -- The loop over the payment targets from the i-th on: the last one gets what is left.
  unfoldable pub pay_targets : ℕ → ℕ → ℕ → List Target → Job (Unit {0})
  unfolding ◌>>=◌
  pay_targets amount per_bed i [] = pure tt
  pay_targets amount per_bed i (t ∷ []) = quietly (call_payment ezee t (amount - per_bed * i))
  pay_targets amount per_bed i (t ∷ u ∷ ts) = do
    quietly (call_payment ezee t per_bed)
    pay_targets amount per_bed (suc i) (u ∷ ts)

  unfoldable pub add_payments : ℕ → Inserted → Job (Unit {0})
  add_payments amount r =
      let targets = payment_targets r in
      pay_targets amount (amount_per_bed amount (length targets)) 0 targets

  abbrev pub booking_input : List RoomTypeRow → SyncBooking → Booker → BookingInput
  booking_input types booking guest =
      let name = default_name guest.name guest_word in
      record {
        checkin = booking.checkin_date;
        checkout = booking.checkout_date;
        email = guest.email;
        phone = guest.phone;
        rooms =
            build_ezee_rooms (calc_nights booking.checkin_date booking.checkout_date) (name.0 ∷ [])
              (last_name_of name) (parse_booking_rooms types booking);
      }

  -- Step 1 of a booking that has no reservation number yet.
  unfoldable pub insert_new : InsertPayload → SyncBooking → Booker → Job Inserted
  unfolding ◌>>=◌
  insert_new payload booking guest = do
    types ← gets (λ s. s.room_types)
    result ← call_insert ezee (of_booking payload.eri) (booking_input types booking guest)
    write_booking payload.eri (number_booking result)
    pure result

  abbrev pub insert_or_skip : InsertPayload → SyncBooking → Booker → Job Inserted
  insert_or_skip payload booking guest =
      if_found booking.ezee_reservation_no (λ number. pure (inserted_before booking number))
        (insert_new payload booking guest)

  -- Step 3, whose failure is only logged.
  unfoldable pub capture_room : ℕ → ℕ → Job (Unit {0})
  unfolding ◌>>=◌
  capture_room eri number = quietly do
    found ← call_fetch ezee number
    if_found found
        (λ room.
          write_booking eri
            λ b. record b { room_number = some room.room_name; unit_code = room.room_id })
        (pure tt)

  -- The four steps, and what follows them.
  abbrev pub book_and_pay : InsertPayload → SyncBooking → Booker → ℕ → Job (Unit {0})
  book_and_pay payload booking guest log = do
    result ← insert_or_skip payload booking guest
    call_process ezee result.reservation_no
    capture_room payload.eri result.reservation_no
    add_payments payload.amount result
    update_sync_log log success none
    delete_key (payload.property_id, booking.checkin_date, booking.checkout_date)

  -- The body of the `try`.
  unfoldable pub sync_booking : InsertPayload → SyncBooking → Booker → ℕ → Job (Unit {0})
  unfolding ◌>>=◌
  sync_booking payload booking guest log = do
    types ← gets (λ s. s.room_types)
    throw_if (length (parse_booking_rooms types booking) == 0) no_room_selections
    book_and_pay payload booking guest log

  unfoldable pub insert_found : InsertPayload → SyncBooking → Booker → Job (Unit {0})
  unfolding ◌>>=◌
  insert_found payload booking guest = do
    log ← create_sync_log (of_booking payload.eri) insert_action
    on_error (sync_booking payload booking guest log) λ e. update_sync_log log failure (some e)

  abbrev pub booker_of : ℕ → Worker → Option Booker
  booker_of id s = find (λ g. g.id == id) s.bookers

  unfoldable pub handle_insert_booking : InsertPayload → Job (Unit {0})
  unfolding ◌>>=◌
  handle_insert_booking payload = do
    found ← gets (find_booking payload.eri)
    if_found found
        (λ booking. do
          -- Prisma refuses `id: null`
          id ← or_throw booking.guest_id bad_request
          guest ← gets (booker_of id)
          if_found guest (insert_found payload booking) (pure tt))
        (pure tt)

  unfoldable pub charge_found : ChargePayload → SyncBooking → Job (Unit {0})
  unfolding ◌>>=◌
  charge_found payload booking = do
    number ← or_throw booking.ezee_reservation_no not_synced
    log ← create_sync_log (of_booking payload.eri) charge_action
    on_error
        (do
          call_payment ezee (charge_target booking.ezee_sub_reservation_nos number)
              (sum_of of_items payload.items)
          update_sync_log log success none)
        λ e. update_sync_log log failure (some e)

  unfoldable pub handle_add_extra_charge : ChargePayload → Job (Unit {0})
  unfolding ◌>>=◌
  handle_add_extra_charge payload = do
    found ← gets (find_booking payload.eri)
    if_found found (charge_found payload) (pure tt)

  -- A stub in the code, too.
  abbrev pub handle_update_reservation : ℕ → Job (Unit {0})
  handle_update_reservation eri = pure tt

  abbrev pub colive_input : ColivePayload → RoomTypeRow → BookingInput
  colive_input p rt = record {
    checkin = some p.move_in_date;
    checkout = some p.move_out_date;
    email = some p.email;
    phone = some p.phone;
    rooms =
        record {
          room_type_id = rt.ezee_room_type_id;
          rate_plan_id = rt.ezee_rate_plan_id;
          rate_type_id = or_else rt.ezee_rate_type_id rt.ezee_rate_plan_id;
          rate_per_night = p.rate_per_night;
          number_of_nights = p.total_nights;
          first_name = p.first_name;
          last_name = p.last_name;
          gender = male;
          title_ms = false;
        }
        ∷ [];
  }

  unfoldable pub sync_draft : ColivePayload → RoomTypeRow → ℕ → Job (Unit {0})
  unfolding ◌>>=◌
  sync_draft payload rt log = do
    result ← call_insert ezee (of_draft payload.draft_booking_id) (colive_input payload rt)
    write_draft payload.draft_booking_id λ d. record d {
      ezee_reservation_no = some result.reservation_no;
      ezee_sync_status = some partly_synced;
    }
    call_process ezee result.reservation_no
    add_payments payload.amount result
    write_draft payload.draft_booking_id λ d. record d { ezee_sync_status = some synced }
    update_sync_log log success none

  unfoldable pub colive_new : ColivePayload → Job (Unit {0})
  unfolding ◌>>=◌
  colive_new payload = do
    found ← gets (λ s. find (λ rt. rt.id == payload.room_type_id) s.room_types)
    rt ← or_throw found no_ezee_room_type
    or_throw rt.ezee_room_type_id no_ezee_room_type
    log ← create_sync_log (of_draft payload.draft_booking_id) colive_action
    on_error (sync_draft payload rt log) λ e. do
      update_sync_log log failure (some e)
      write_draft payload.draft_booking_id λ d. record d { ezee_sync_status = some failed_sync }

  unfoldable pub handle_insert_colive_booking : ColivePayload → Job (Unit {0})
  unfolding ◌>>=◌
  handle_insert_colive_booking payload = do
    found ← gets (find_draft payload.draft_booking_id)
    if_found found
        (λ draft. if_found draft.ezee_reservation_no (λ number. pure tt) (colive_new payload))
        (pure tt)

  unfoldable pub process : SyncMessage → Job (Unit {0})
  process (insert_message p) = handle_insert_booking p
  process (charge_message p) = handle_add_extra_charge p
  process (update_message eri) = handle_update_reservation eri
  process (colive_message p) = handle_insert_colive_booking p
  process unknown_message = pure tt

  -- The messages that the queue delivers, one after another; one that threw comes again.
  unfoldable pub process_all : List SyncMessage → Worker → Worker
  process_all [] s = s
  process_all (m ∷ ms) s = process_all ms (process m s).1
