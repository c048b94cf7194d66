-- ===== src/Worker.antt =====
-- The worker of the queue `vibehouse-ezee-sync.fifo` (src/sqs/workers/ezee-sync.worker.ts): it books
-- in eZee, the hotel's booking system. The queue hands it one message at a time, so a message is
-- handled without another in between. What eZee answers depends on the number of the call; the
-- calls are kept with whether eZee took them: a call that throws counts as not taken, so a reply that
-- is lost after eZee has booked is outside this model.
pub mod Messages
pub mod Rooms
pub mod Handlers
pub mod Once
pub mod Pays
pub mod Paid
use vibehouse_backend.Common.{
  ℕ, Bool, true, false, ◌&&◌, Option, none, some, List, [], ◌∷◌, ◌++◌, ◌==◌, length, update_where,
  if◌then◌else◌,
}
use vibehouse_backend.Exec.{Error, Result, ok, err, Exec, ezee_error}

-- The code asks of a gender only whether it is 'Female'.
pub data Gender : Type 0 where
  male female : Gender
  other_gender : ℕ → Gender

-- A line of booking_rooms_json. A name is the list of its words.
pub record RoomGuest : Type 0 where
  pub first_name : Option (List ℕ)
  pub last_name : Option (List ℕ)
  pub gender : Option Gender

pub record ParsedRoom : Type 0 where
  pub ezee_room_type_id : Option ℕ
  pub ezee_rate_plan_id : Option ℕ
  pub ezee_rate_type_id : Option ℕ
  pub quantity : ℕ
  pub price_per_night : ℕ
  pub guests : Option (List RoomGuest)

-- A segment `Name x2` of room_type_name; one of another form is `none`. The name is in lower case.
pub record Segment : Type 0 where
  pub name : ℕ
  pub quantity : ℕ

pub record RoomTypeRow : Type 0 where
  pub id : ℕ
  pub property_id : ℕ
  pub name : ℕ
  pub is_active : Bool
  pub ezee_room_type_id : Option ℕ
  pub ezee_rate_plan_id : Option ℕ
  pub ezee_rate_type_id : Option ℕ
  pub base_price_per_night : ℕ

-- ezee_booking_cache. A day is a number; the sub-reservations are the split list of the column.
pub record SyncBooking : Type 0 where
  pub eri : ℕ
  pub property_id : ℕ
  pub guest_id : Option ℕ
  pub checkin_date : Option ℕ
  pub checkout_date : Option ℕ
  pub booking_rooms : Option (List ParsedRoom)
  pub room_type_name : Option (List (Option Segment))
  pub ezee_reservation_no : Option ℕ
  pub ezee_sub_reservation_nos : Option (List ℕ)
  pub room_number : Option ℕ
  pub unit_code : Option ℕ

-- The first word of the name, and the others.
pub record Booker : Type 0 where
  pub id : ℕ
  pub name : Option (ℕ × List ℕ)
  pub email : Option ℕ
  pub phone : Option ℕ

-- colive_draft_bookings.ezee_sync_status
pub data SyncStatus : Type 0 where
  partly_synced synced failed_sync : SyncStatus

pub record Draft : Type 0 where
  pub id : ℕ
  pub ezee_reservation_no : Option ℕ
  pub ezee_sync_status : Option SyncStatus

-- What a sync log entry or a call is about.
pub data Subject : Type 0 where
  of_booking : (eri : ℕ) → Subject
  of_draft : (id : ℕ) → Subject

abbrev pub subject_eq : Subject → Subject → Bool
subject_eq (of_booking a) (of_booking b) = a == b
subject_eq (of_draft a) (of_draft b) = a == b
subject_eq _ _ = false

pub data SyncAction : Type 0 where
  insert_action charge_action colive_action : SyncAction

pub data LogStatus : Type 0 where
  pending success failure : LogStatus

-- ezee_sync_log
pub record SyncLog : Type 0 where
  pub id : ℕ
  pub entity : Subject
  pub action : SyncAction
  pub status : LogStatus
  pub error_message : Option Error

-- A room of an InsertBooking call: `EzeeBookingInput['rooms'][number]`.
pub record EzeeRoom : Type 0 where
  pub room_type_id : Option ℕ
  pub rate_plan_id : Option ℕ
  pub rate_type_id : Option ℕ
  pub rate_per_night : ℕ
  pub number_of_nights : ℕ
  pub first_name : List ℕ
  pub last_name : List ℕ
  pub gender : Gender
  -- the title `Ms`, not `Mr`
  pub title_ms : Bool

pub record BookingInput : Type 0 where
  pub checkin : Option ℕ
  pub checkout : Option ℕ
  pub email : Option ℕ
  pub phone : Option ℕ
  pub rooms : List EzeeRoom

-- The reservation that a payment goes to; the empty text is `''.split(',')[0]`.
pub data Target : Type 0 where
  empty_text : Target
  reservation : ℕ → Target

pub data EzeeCall : Type 0 where
  insert_booking : Subject → BookingInput → EzeeCall
  process_booking : (reservation_no : ℕ) → EzeeCall
  fetch_booking : (reservation_no : ℕ) → EzeeCall
  add_payment : Target → (amount : ℕ) → EzeeCall

pub record Sent : Type 0 where
  pub call : EzeeCall
  pub taken : Bool

pub record Inserted : Type 0 where
  pub reservation_no : ℕ
  pub sub_reservation_nos : List ℕ

-- The first sub-reservation of the answer to FetchSingleBooking, when it has a room name.
pub record AssignedRoom : Type 0 where
  pub room_name : ℕ
  pub room_id : Option ℕ

pub record EzeeAnswers : Type 0 where
  pub to_insert : ℕ → Option Inserted
  pub to_process : ℕ → Bool
  -- an exception, or what was assigned
  pub to_fetch : ℕ → Option (Option AssignedRoom)
  pub to_payment : ℕ → Bool

pub record Worker : Type 0 where
  pub bookings : List SyncBooking
  pub bookers : List Booker
  pub drafts : List Draft
  pub room_types : List RoomTypeRow
  pub sync_log : List SyncLog
  pub sent : List Sent
  -- the keys of the cache that were deleted: a property and the days of a stay
  pub deleted_keys : List (ℕ × Option ℕ × Option ℕ)

abbrev pub Job {κ} : Type κ → Type κ
Job A = Exec Worker A

unfoldable pub set_bookings : (List SyncBooking → List SyncBooking) → Job (Unit {0})
set_bookings f s = (ok tt, record s { bookings = f s.bookings })

unfoldable pub set_drafts : (List Draft → List Draft) → Job (Unit {0})
set_drafts f s = (ok tt, record s { drafts = f s.drafts })

unfoldable pub delete_key : ℕ × Option ℕ × Option ℕ → Job (Unit {0})
delete_key key s = (ok tt, record s { deleted_keys = s.deleted_keys ++ key ∷ [] })

-- `createSyncLog`; an entry is numbered as it is made.
unfoldable pub create_sync_log : Subject → SyncAction → Job ℕ
create_sync_log entity action s =
    let id = length s.sync_log in
    let entry : SyncLog = record {
      id = id;
      entity = entity;
      action = action;
      status = pending;
      error_message = none;
    } in
    (ok id, record s { sync_log = s.sync_log ++ entry ∷ [] })

unfoldable pub update_sync_log : ℕ → LogStatus → Option Error → Job (Unit {0})
update_sync_log id status e s = (
  ok tt,
  record s {
    sync_log =
        update_where (λ l. l.id == id) (λ l. record l { status = status; error_message = e })
          s.sync_log;
  },
)

abbrev pub log_call : EzeeCall → Bool → Worker → Worker
log_call call taken s = record s { sent = s.sent ++ record { call = call; taken = taken } ∷ [] }

abbrev pub ending {κ} : {A : Type κ} → Result A → (Error → Job (Unit {0})) → Job A
ending (ok a) handler s = (ok a, s)
ending (err e) handler s = (err e, (handler e s).1)

-- `try { … } catch (err) { …; throw err }`
unfoldable pub on_error {κ} : {A : Type κ} → Job A → (Error → Job (Unit {0})) → Job A
on_error act handler s = let (r, between) = act s in ending r handler between

module _ (ezee : EzeeAnswers) where
  abbrev answered : Option Inserted → EzeeCall → Job Inserted
  answered none call s = (err ezee_error, log_call call false s)
  answered (some r) call s = (ok r, log_call call true s)

  unfoldable pub call_insert : Subject → BookingInput → Job Inserted
  call_insert subject input s =
      answered (ezee.to_insert (length s.sent)) (insert_booking subject input) s

  abbrev took : Bool → EzeeCall → Job (Unit {0})
  took false call s = (err ezee_error, log_call call false s)
  took true call s = (ok tt, log_call call true s)

  unfoldable pub call_process : ℕ → Job (Unit {0})
  call_process number s = took (ezee.to_process (length s.sent)) (process_booking number) s

  unfoldable pub call_payment : Target → ℕ → Job (Unit {0})
  call_payment target amount s =
      took (ezee.to_payment (length s.sent)) (add_payment target amount) s

  abbrev fetched : Option (Option AssignedRoom) → EzeeCall → Job (Option AssignedRoom)
  fetched none call s = (err ezee_error, log_call call false s)
  fetched (some r) call s = (ok r, log_call call true s)

  unfoldable pub call_fetch : ℕ → Job (Option AssignedRoom)
  call_fetch number s = fetched (ezee.to_fetch (length s.sent)) (fetch_booking number) s
