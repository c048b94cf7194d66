-- ===== src/Worker/Paid.antt =====
-- A message to book that eZee takes: it is done, and its payments add up to its amount.
use vibehouse_backend.Common.{
  ℕ, suc, ◌+◌, ◌-◌, ◌*◌, ◌≤◌, ◌≡◌, ◌≢◌, refl, Bool, true, false, Option, none, some, List, [], ◌∷◌,
  ◌++◌, ◌==◌, length, map, is_some, Bool-cases, Option-cases, inl, inr, arith,
}
use native.Mathlib.Nat.{mul-div-le}
use vibehouse_backend.Exec.{Error, ok, pure, throw_if, if_found, ◌>>=◌, ◌>>◌, no_room_selections}
use vibehouse_backend.Worker.{
  SyncBooking, Booker, Subject, of_booking, insert_action, success, pending, SyncLog, failure,
  EzeeCall, insert_booking, process_booking, fetch_booking, add_payment, BookingInput, Target,
  reservation, Inserted, EzeeAnswers, Worker, Job, set_bookings, delete_key, log_call,
  create_sync_log, update_sync_log, on_error, call_insert, call_process, call_payment, call_fetch,
}
use vibehouse_backend.Worker.Rooms.{parse_booking_rooms}
use vibehouse_backend.Worker.Handlers.{
  find_booking, write_booking, quietly, number_booking, inserted_before, payment_targets,
  amount_per_bed, booking_input, pay_targets, add_payments, insert_new, insert_or_skip,
  capture_room, book_and_pay, sync_booking, insert_found, booker_of, handle_insert_booking,
}
use vibehouse_backend.Worker.Messages.{InsertPayload}
use vibehouse_backend.Worker.Pays.{
  pay, paid, paid-append, Pays, Pays-bind, Pays-bind_first, Pays-bind_last, Pays-gets, Pays-passes,
  Pays-pure, Pays-write_booking,
}

amount_per_bed_lem : (amount n : ℕ) → amount_per_bed amount n * n ≤ amount
unfolding amount_per_bed
amount_per_bed_lem amount n = let bound = mul-div-le amount (100 * n) in omega arith

module _ (ezee : EzeeAnswers) where
  paid_logged :
      (c : EzeeCall) (taken : Bool) (s : Worker)
      → paid (log_call c taken s).sent ≡ paid s.sent + pay c
  paid_logged c taken s = paid-append s.sent (record { call = c; taken = taken })

  -- Whatever eZee answers to an AddPayment, it was asked for.
  Pays-call_payment : (t : Target) (n : ℕ) (s : Worker) → Pays s n (quietly (call_payment ezee t n))
  unfolding call_payment quietly
  Pays-call_payment t n s = elim (Bool-cases (ezee.to_payment (length s.sent))) [
    | inl yes' ↦ record {
      answer = tt;
      returns = refl;
      adds = rw yes' (paid_logged (add_payment t n) true s);
    }
    | inr no' ↦ record {
      answer = tt;
      returns = refl;
      adds = rw no' (paid_logged (add_payment t n) false s);
    }
  ]

  module _ (guest_word : ℕ) where
    -- The loop over the targets from the i-th on: what the ones before have left.
    Pays-pay_targets :
        (amount per_bed i : ℕ) (t : Target) (ts : List Target) (s : Worker)
        → per_bed * (i + length (t ∷ ts)) ≤ amount
        → Pays s (amount - per_bed * i) (pay_targets ezee guest_word amount per_bed i (t ∷ ts))
    unfolding pay_targets
    Pays-pay_targets amount per_bed i t [] s bound = Pays-call_payment t (amount - per_bed * i) s
    Pays-pay_targets amount per_bed i t (u ∷ ts) s bound =
        let both =
          Pays-bind s per_bed (amount - per_bed * suc i) (quietly (call_payment ezee t per_bed))
            (λ _. pay_targets ezee guest_word amount per_bed (suc i) (u ∷ ts))
            (Pays-call_payment t per_bed s)
            (λ _. Pays-pay_targets amount per_bed (suc i) u ts _ (omega arith)) in
        let sum : per_bed + (amount - per_bed * suc i) ≡ amount - per_bed * i = omega arith in
        record { answer = tt; returns = both.returns; adds = (let a = both.adds in omega arith) }

    targets_cons : (r : Inserted) → (t : Target) × (ts : List Target) × (payment_targets r ≡ t ∷ ts)
    targets_cons r = go r.sub_reservation_nos
      where
        go :
            (ns : List ℕ)
            → (t : Target) × (ts : List Target) × (payment_targets
                  (record r { sub_reservation_nos = ns })
                ≡ t ∷ ts)
        go [] = (reservation r.reservation_no, [], refl)
        go (n ∷ ns) = (reservation n, map reservation ns, refl)

    Pays-add_payments :
        (amount : ℕ) (r : Inserted) (s : Worker)
        → Pays s amount (add_payments ezee guest_word amount r)
    unfolding add_payments
    Pays-add_payments amount r s =
        let (t, ts, same) = targets_cons r in
        let bound = amount_per_bed_lem amount (length (t ∷ ts)) in
        let per_bed = amount_per_bed amount (length (t ∷ ts)) in
        let paid' = Pays-pay_targets amount per_bed 0 t ts s (omega arith) in
        rw same (record {
          answer = tt;
          returns = paid'.returns;
          adds = (let a = paid'.adds in omega arith);
        })

    Pays-capture_room :
        (eri number : ℕ) (s : Worker) → Pays s 0 (capture_room ezee guest_word eri number)
    unfolding capture_room quietly call_fetch set_bookings ◌>>=◌
    Pays-capture_room eri number s = elim (Option-cases (ezee.to_fetch (length s.sent))) [
      | inl no' ↦ record {
        answer = tt;
        returns = refl;
        adds = rw no' (paid_logged (fetch_booking number) false s);
      }
      | inr (none, yes') ↦ record {
        answer = tt;
        returns = refl;
        adds = rw yes' (paid_logged (fetch_booking number) true s);
      }
      | inr (some room, yes') ↦ record {
        answer = tt;
        returns = refl;
        adds = rw yes' (paid_logged (fetch_booking number) true s);
      }
    ]

    Pays-on_error :
        (s : Worker) (n : ℕ) (act : Job (Unit {0})) (handler : Error → Job (Unit {0}))
        → Pays s n act
        → Pays s n (on_error act handler)
    unfolding on_error
    Pays-on_error s n act handler done = record {
      answer = done.answer;
      returns = rw done.returns refl;
      adds = rw done.returns done.adds;
    }

    module _ (inserts : (i : ℕ) → is_some (ezee.to_insert i) ≡ true)
        (processes : (i : ℕ) → ezee.to_process i ≡ true) where
      Pays-call_process : (n : ℕ) (s : Worker) → Pays s 0 (call_process ezee n)
      unfolding call_process
      Pays-call_process n s = record {
        answer = tt;
        returns = rw (processes (length s.sent)) refl;
        adds = rw (processes (length s.sent)) (paid_logged (process_booking n) true s);
      }

      Pays-call_insert :
          (own : Subject) (input : BookingInput) (s : Worker)
          → Pays s 0 (call_insert ezee own input)
      unfolding call_insert
      Pays-call_insert own input s = elim (Option-cases (ezee.to_insert (length s.sent))) [
        | inl no' ↦ absurd (let some' = inserts (length s.sent) in cc)
        | inr (r, yes') ↦ record {
          answer = r;
          returns = rw yes' refl;
          adds = rw yes' (paid_logged (insert_booking own input) true s);
        }
      ]

      Pays-insert_or_skip :
          (p : InsertPayload) (b : SyncBooking) (g : Booker) (number : Option ℕ) (s : Worker)
          → Pays s 0
              (if_found number (λ n. pure (inserted_before b n)) (insert_new ezee guest_word p b g))
      unfolding insert_new
      Pays-insert_or_skip p b g (some n) s = Pays-pure (inserted_before b n)
      Pays-insert_or_skip p b g none s =
          Pays-gets (λ t. t.room_types)
            (λ types.
              call_insert ezee (of_booking p.eri) (booking_input ezee guest_word types b g) >>= λ r.
              write_booking p.eri (number_booking r) >> pure r)
            (Pays-bind_first s 0 _ _ (Pays-call_insert (of_booking p.eri) _ s)
              (λ r. Pays-write_booking p.eri (number_booking r) r _))

      logged :
          (p : InsertPayload) (b : SyncBooking) (log : ℕ) (t : Worker)
          → Pays t 0 (do
            update_sync_log log success none
            delete_key (p.property_id, b.checkin_date, b.checkout_date))
      unfolding update_sync_log delete_key ◌>>=◌
      logged p b log t = record { answer = tt; returns = refl; adds = omega arith }

      Pays-end :
          (p : InsertPayload) (b : SyncBooking) (r : Inserted) (log : ℕ) (s : Worker)
          → Pays s p.amount (do
            call_process ezee r.reservation_no
            capture_room ezee guest_word p.eri r.reservation_no
            add_payments ezee guest_word p.amount r
            update_sync_log log success none
            delete_key (p.property_id, b.checkin_date, b.checkout_date))
      Pays-end p b r log s =
          Pays-bind_first s p.amount _ _ (Pays-call_process r.reservation_no s) λ u.
            Pays-bind_first _ p.amount _ _ (Pays-capture_room p.eri r.reservation_no _) λ u.
              Pays-bind_last _ p.amount _ _ (Pays-add_payments p.amount r _) λ u. logged p b log _

      Pays-sync_booking :
          (p : InsertPayload) (b : SyncBooking) (g : Booker) (log : ℕ) (s : Worker)
          → length (parse_booking_rooms s.room_types b) ≢ 0
          → Pays s p.amount (sync_booking ezee guest_word p b g log)
      unfolding sync_booking
      Pays-sync_booking p b g log s rooms =
          Pays-gets (λ t. t.room_types)
            (λ types.
              throw_if (length (parse_booking_rooms types b) == 0) no_room_selections
              >> book_and_pay ezee guest_word p b g log)
            (Pays-passes (length (parse_booking_rooms s.room_types b) == 0) no_room_selections _
              (ground arith)
              (Pays-bind_first s p.amount (insert_or_skip ezee guest_word p b g) _
                (Pays-insert_or_skip p b g b.ezee_reservation_no s) (λ r. Pays-end p b r log _)))

      Pays-insert_found :
          (p : InsertPayload) (b : SyncBooking) (g : Booker) (s : Worker)
          → length (parse_booking_rooms s.room_types b) ≢ 0
          → Pays s p.amount (insert_found ezee guest_word p b g)
      unfolding insert_found create_sync_log ◌>>=◌
      Pays-insert_found p b g s rooms =
          let log = length s.sync_log in
          let entry : SyncLog = record {
            id = log;
            entity = of_booking p.eri;
            action = insert_action;
            status = pending;
            error_message = none;
          } in
          let s' = record s { sync_log = s.sync_log ++ entry ∷ [] } in
          let done =
            Pays-on_error s' p.amount _ (λ e. update_sync_log log failure (some e))
              (Pays-sync_booking p b g log s' rooms) in
          record { answer = done.answer; returns = done.returns; adds = done.adds }

      -- The message to book a booking whose guest and rooms are there is done and not retried,
      -- where eZee takes InsertBooking and ProcessBooking, whatever it answers to the other calls;
      -- and the payments that it asks eZee for add up to its amount exactly.
      pub handle_insert_booking_lem :
          (p : InsertPayload) (b : SyncBooking) (id : ℕ) (g : Booker) (s : Worker)
          → find_booking p.eri s ≡ some b
          → b.guest_id ≡ some id
          → booker_of ezee guest_word id s ≡ some g
          → length (parse_booking_rooms s.room_types b) ≢ 0
          → let done = handle_insert_booking ezee guest_word p s in
            (done.0 ≡ ok tt) × (paid done.1.sent ≡ paid s.sent + p.amount)
      unfolding handle_insert_booking ◌>>=◌
      handle_insert_booking_lem p b id g s found known there rooms =
          let done = Pays-insert_found p b g s rooms in
          simp (found, known, there) (done.returns, done.adds)
