-- ===== src/Worker/Once/Bookings.antt =====
-- The handler of the InsertBooking message.
use vibehouse_backend.Common.{
  ℕ, ◌≡◌, refl, ap, ◌∙◌, true, Option, none, some, ◌==◌, length, update_where, find-All, find-true,
  ==-eq, update_where-All, Bool-cases, Option-cases, inl, inr, arith,
}
use vibehouse_backend.Exec.{ok, pure, gets, throw_if, if_found, ◌>>=◌, no_room_selections}
use vibehouse_backend.Exec.Keeps.{Keeps, Keeps-bind, Keeps-gets, Keeps-throw_if, Keeps-pure}
use vibehouse_backend.Exec.Leads.{Leads, Leads-then, Leads-first}
use vibehouse_backend.Worker.{
  SyncBooking, Booker, Subject, of_booking, subject_eq, SyncAction, success, failure, insert_action,
  insert_booking, BookingInput, Inserted, EzeeAnswers, Worker, Job, set_bookings, log_call,
  create_sync_log, call_insert,
}
use vibehouse_backend.Worker.Rooms.{parse_booking_rooms}
use vibehouse_backend.Worker.Handlers.{
  find_booking, number_booking, inserted_before, insert_new, insert_or_skip, sync_booking,
  insert_found, booker_of, handle_insert_booking,
}
use vibehouse_backend.Worker.Messages.{InsertPayload}
use vibehouse_backend.Worker.Once.{
  inserts, inserts-append, Numbered, Once, Once-log_call, Keeps-update_sync_log, Keeps-delete_key,
  Keeps-call_process, Leads-on_error, Keeps-capture_room, Keeps-add_payments,
}
use vibehouse_backend.Worker.Once.Rows.{NumberedBooking, booking_written, Once-refused}

module _ (subject : Subject) where
  module _ (ezee : EzeeAnswers) (guest_word : ℕ) where
    -- The booking was read, and has no number only if eZee has taken no InsertBooking about it.
    abbrev pub Ready : Subject → Option ℕ → Worker → Type 0
    Ready own number s =
        Once subject s
        × (number ≡ none → subject_eq own subject ≡ true → inserts subject s.sent ≡ 0)

    Leads-call_insert :
        (own : Subject) (input : BookingInput) (write : Inserted → Worker → Worker)
        → ((r : Inserted) (t : Worker) → (write r t).sent ≡ t.sent)
        → ((r : Inserted) (t : Worker) → Numbered subject t → Numbered subject (write r t))
        → ((r : Inserted) (t : Worker)
            → subject_eq own subject ≡ true
            → Numbered subject (write r t))
        → (s : Worker) → Ready own none s
        → (r : Inserted) → Once subject (write r (log_call (insert_booking own input) true s))
    Leads-call_insert own input write same kept numbers s (held, none') r =
        let call = insert_booking own input in
        let s' = log_call call true s in
        let count = inserts-append subject s.sent (record { call = call; taken = true }) in
        let sent = same r s' in
        elim (Bool-cases (subject_eq own subject)) [
          | inl hit ↦
              let zero' = none' refl hit in
              let one : inserts subject s'.sent ≡ 1 = ground arith in
              inr (ap (inserts subject) sent ∙ one, numbers r s' hit)
          | inr miss ↦ elim (Once-log_call subject call true s miss held) [
            | inl z ↦ inl (ap (inserts subject) sent ∙ z)
            | inr (one, rows) ↦ inr (ap (inserts subject) sent ∙ one, kept r s' rows)
          ]
        ]

    pub Leads-insert :
        {B : Type 0} (own : Subject) (input : BookingInput) (write : Inserted → Worker → Worker)
        (rest : Inserted → Unit {0} → Job B)
        → ((r : Inserted) (t : Worker) → (write r t).sent ≡ t.sent)
        → ((r : Inserted) (t : Worker) → Numbered subject t → Numbered subject (write r t))
        → ((r : Inserted) (t : Worker)
            → subject_eq own subject ≡ true
            → Numbered subject (write r t))
        → ((r : Inserted) (u : Unit {0}) → Keeps (Once subject) (rest r u))
        → Leads
            (Ready own none)
            (Once subject)
            (call_insert ezee own input >>= λ r. (λ t. (ok tt, write r t)) >>= rest r)
    unfolding call_insert ◌>>=◌
    Leads-insert own input write rest same kept numbers keeps = record {
      after = λ s ready. elim (Option-cases (ezee.to_insert (length s.sent))) [
        | inl no' ↦ rw no' (Once-refused subject (insert_booking own input) s ready.0)
        | inr (r, yes') ↦
            rw yes'
              ((keeps r tt).after _ (Leads-call_insert own input write same kept numbers s ready r))
      ];
    }

    booked_before :
        (b : SyncBooking) (eri : ℕ) (s : Worker)
        → find_booking eri s ≡ some b
        → Once subject s
        → Ready (of_booking eri) b.ezee_reservation_no s
    booked_before b eri s found held = (
      held,
      λ no' own. elim held [
        | inl none' ↦ none'
        | inr (one, rows) ↦
            let hit = ==-eq b.eri eri (find-true (λ c. c.eri == eri) s.bookings found) in
            let row =
              find-All (NumberedBooking subject) (λ c. c.eri == eri) s.bookings found rows.0
                (rw hit own) in
            absurd (cc)
      ],
    )

    Leads-insert_new :
        (p : InsertPayload) (b : SyncBooking) (g : Booker)
        → Leads (Ready (of_booking p.eri) none) (Once subject) (insert_new ezee guest_word p b g)
    unfolding insert_new set_bookings
    Leads-insert_new p b g =
        Leads-first (gets (λ s. s.room_types)) _ (λ s ready. ready.0) (Keeps-gets _)
          λ types.
            Leads-insert (of_booking p.eri) _
              (λ r t. record t {
                bookings = update_where (λ c. c.eri == p.eri) (number_booking r) t.bookings;
              })
              (λ r u. pure r) (λ r t. refl)
              (λ r t rows. (
                update_where-All (NumberedBooking subject) (λ c. c.eri == p.eri) (number_booking r)
                    t.bookings (λ c hit h of'. refl) rows.0,
                rows.1,
              ))
              (λ r t own. booking_written subject p.eri (number_booking r) t (λ c. refl) own)
              (λ r u. Keeps-pure r)

    Leads-insert_or_skip :
        (p : InsertPayload) (b : SyncBooking) (g : Booker) (number : Option ℕ)
        → Leads
            (Ready (of_booking p.eri) number)
            (Once subject)
            (if_found number (λ n. pure (inserted_before b n)) (insert_new ezee guest_word p b g))
    unfolding ◌>>=◌
    Leads-insert_or_skip p b g none = Leads-insert_new p b g
    Leads-insert_or_skip p b g (some n) = record { after = λ s ready. ready.0 }

    Leads-sync_booking :
        (p : InsertPayload) (b : SyncBooking) (g : Booker) (log : ℕ)
        → Leads
            (Ready (of_booking p.eri) b.ezee_reservation_no)
            (Once subject)
            (sync_booking ezee guest_word p b g log)
    unfolding sync_booking
    Leads-sync_booking p b g log =
        Leads-first (gets (λ s. s.room_types)) _ (λ s ready. ready.0) (Keeps-gets _)
          λ types.
            Leads-first (throw_if (length (parse_booking_rooms types b) == 0) no_room_selections) _
              (λ s ready. ready.0) (Keeps-throw_if _ _)
              λ u.
                Leads-then (insert_or_skip ezee guest_word p b g) _
                  (Leads-insert_or_skip p b g b.ezee_reservation_no)
                  λ r. Keeps-bind _ _ (Keeps-call_process subject ezee r.reservation_no) λ u.
                    Keeps-bind _ _
                      (Keeps-capture_room subject ezee guest_word p.eri r.reservation_no)
                      λ u.
                        Keeps-bind _ _ (Keeps-add_payments subject ezee guest_word p.amount r) λ u.
                          Keeps-bind _ _ (Keeps-update_sync_log subject log success none)
                            λ u. Keeps-delete_key subject _

    pub Ready-create_sync_log :
        (own : Subject) (number : Option ℕ) (e : Subject) (a : SyncAction)
        → Keeps (Ready own number) (create_sync_log e a)
    unfolding create_sync_log
    Ready-create_sync_log own number e a = record { after = λ s ready. ready }

    Leads-insert_found :
        (p : InsertPayload) (b : SyncBooking) (g : Booker)
        → Leads
            (Ready (of_booking p.eri) b.ezee_reservation_no)
            (Once subject)
            (insert_found ezee guest_word p b g)
    unfolding insert_found
    Leads-insert_found p b g =
        Leads-first (create_sync_log (of_booking p.eri) insert_action) _ (λ s ready. ready.0)
          (Ready-create_sync_log (of_booking p.eri) b.ezee_reservation_no _ _)
          λ log.
            Leads-on_error subject ezee _ _ _ (Leads-sync_booking p b g log)
              (λ e. Keeps-update_sync_log subject log failure (some e))

    pub handle_insert_booking-Once :
        (p : InsertPayload) → Keeps (Once subject) (handle_insert_booking ezee guest_word p)
    unfolding handle_insert_booking ◌>>=◌
    handle_insert_booking-Once p = record {
      after = λ s held. elim (Option-cases (find_booking p.eri s)) [
        | inl no' ↦ rw no' held
        | inr (b, found) ↦ elim (Option-cases b.guest_id) [
          | inl nobody ↦ simp (found, nobody) held
          | inr (id, known) ↦ elim (Option-cases (booker_of ezee guest_word id s)) [
            | inl no' ↦ simp (found, known, no') held
            | inr (g, there) ↦
                let ready = booked_before b p.eri s found held in
                simp (found, known, there) ((Leads-insert_found p b g).after s ready)
          ]
        ]
      ];
    }
