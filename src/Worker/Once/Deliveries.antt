-- ===== src/Worker/Once/Deliveries.antt =====
-- The handlers of the other messages, and the theorem for every sequence of messages.
use vibehouse_backend.Common.{
  ℕ, ◌≤◌, ◌≡◌, ◌≢◌, refl, none, some, List, [], ◌∷◌, ◌==◌, find, update_where, find-All, find-true,
  ==-eq, sum_of, ==-eq, update_where-All, Option-cases, inl, inr, arith,
}
use vibehouse_backend.Exec.{pure, gets, or_throw, ◌>>=◌, no_ezee_room_type, not_synced}
use vibehouse_backend.Exec.Keeps.{
  Keeps, Keeps-bind, Keeps-gets, Keeps-if_found, Keeps-pure, Keeps-or_throw,
}
use vibehouse_backend.Exec.Leads.{Leads, Leads-then, Leads-first}
use vibehouse_backend.Worker.{
  SyncBooking, partly_synced, synced, failed_sync, Draft, RoomTypeRow, Subject, of_booking,
  of_draft, success, failure, charge_action, colive_action, EzeeAnswers, Worker, set_drafts,
  create_sync_log, update_sync_log, call_payment,
}
use vibehouse_backend.Worker.Handlers.{
  find_booking, find_draft, charge_found, handle_add_extra_charge, charge_target, of_items,
  sync_draft, colive_new, handle_insert_colive_booking, process, process_all,
}
use vibehouse_backend.Worker.Messages.{
  ChargePayload, ColivePayload, SyncMessage, insert_message, charge_message, update_message,
  colive_message, unknown_message,
}
use vibehouse_backend.Worker.Once.{
  inserts, Numbered, Once, Keeps-create_sync_log, Keeps-update_sync_log, Keeps-call_process,
  Keeps-call_payment, Keeps-write_draft, Leads-on_error, Keeps-add_payments,
}
use vibehouse_backend.Worker.Once.Bookings.{
  Ready, Ready-create_sync_log, Leads-insert, handle_insert_booking-Once,
}
use vibehouse_backend.Worker.Once.Rows.{NumberedDraft, draft_written}

module _ (subject : Subject) (ezee : EzeeAnswers) (guest_word : ℕ) where
  booked_before :
      (d : Draft) (id : ℕ) (s : Worker)
      → find_draft id s ≡ some d
      → d.ezee_reservation_no ≡ none
      → Once subject s
      → Ready subject ezee guest_word (of_draft id) none s
  booked_before d id s found new held = (
    held,
    λ no' own. elim held [
      | inl none' ↦ none'
      | inr (one, rows) ↦
          let hit = ==-eq d.id id (find-true (λ c. c.id == id) s.drafts found) in
          let row =
            find-All (NumberedDraft subject) (λ c. c.id == id) s.drafts found rows.1 (rw hit own) in
          absurd (cc)
    ],
  )

  Leads-sync_draft :
      (p : ColivePayload) (rt : RoomTypeRow) (log : ℕ)
      → Leads
          (Ready subject ezee guest_word (of_draft p.draft_booking_id) none)
          (Once subject)
          (sync_draft ezee guest_word p rt log)
  unfolding sync_draft set_drafts
  Leads-sync_draft p rt log =
      Leads-insert subject ezee guest_word (of_draft p.draft_booking_id) _
        (λ r t. record t {
          drafts =
              update_where (λ d. d.id == p.draft_booking_id)
                (λ d. record d {
                  ezee_reservation_no = some r.reservation_no;
                  ezee_sync_status = some partly_synced;
                })
                t.drafts;
        })
        _ (λ r t. refl)
        (λ r t rows. (
          rows.0,
          update_where-All (NumberedDraft subject) (λ d. d.id == p.draft_booking_id) _ t.drafts
              (λ d hit h of'. refl) rows.1,
        ))
        (λ r t own. draft_written subject p.draft_booking_id _ t (λ d. refl) own)
        (λ r u. Keeps-bind _ _ (Keeps-call_process subject ezee r.reservation_no) λ u.
          Keeps-bind _ _ (Keeps-add_payments subject ezee guest_word p.amount r) λ u.
            Keeps-bind _ _
              (Keeps-write_draft subject ezee p.draft_booking_id
                (λ d. record d { ezee_sync_status = some synced }) (λ d. refl) (λ d h. h))
              λ u. Keeps-update_sync_log subject log success none)

  Leads-colive_new :
      (p : ColivePayload)
      → Leads
          (Ready subject ezee guest_word (of_draft p.draft_booking_id) none)
          (Once subject)
          (colive_new ezee guest_word p)
  unfolding colive_new
  Leads-colive_new p =
      Leads-first (gets (λ s. find (λ rt. rt.id == p.room_type_id) s.room_types)) _
        (λ s ready. ready.0) (Keeps-gets _)
        λ found.
          Leads-first (or_throw found no_ezee_room_type) _ (λ s ready. ready.0) (Keeps-or_throw _ _)
            λ rt.
              Leads-first (or_throw rt.ezee_room_type_id no_ezee_room_type) _ (λ s ready. ready.0)
                (Keeps-or_throw _ _)
                λ id.
                  Leads-first (create_sync_log (of_draft p.draft_booking_id) colive_action) _
                    (λ s ready. ready.0)
                    (Ready-create_sync_log subject ezee guest_word (of_draft p.draft_booking_id)
                      none _ _)
                    λ log. Leads-on_error subject ezee _ _ _ (Leads-sync_draft p rt log) λ e.
                      Keeps-bind _ _ (Keeps-update_sync_log subject log failure (some e)) λ u.
                        Keeps-write_draft subject ezee p.draft_booking_id
                          (λ d. record d { ezee_sync_status = some failed_sync }) (λ d. refl)
                          (λ d h. h)

  handle_insert_colive_booking-Once :
      (p : ColivePayload) → Keeps (Once subject) (handle_insert_colive_booking ezee guest_word p)
  unfolding handle_insert_colive_booking ◌>>=◌
  handle_insert_colive_booking-Once p = record {
    after = λ s held. elim (Option-cases (find_draft p.draft_booking_id s)) [
      | inl no' ↦ rw no' held
      | inr (d, found) ↦ elim (Option-cases d.ezee_reservation_no) [
        | inl new ↦
            let ready = booked_before d p.draft_booking_id s found new held in
            rw (found, new) ((Leads-colive_new p).after s ready)
        | inr (n, old) ↦ rw (found, old) held
      ]
    ];
  }

  charge_kept :
      (p : ChargePayload) (b : SyncBooking) (number log : ℕ)
      → Leads (Once subject) (Once subject) (
          call_payment ezee
            (charge_target b.ezee_sub_reservation_nos number)
            (sum_of of_items p.items)
          >>= λ u. update_sync_log log success none)
  charge_kept p b number log =
      Leads-then (call_payment ezee _ _) _
        (record { after = (Keeps-call_payment subject ezee _ _).after })
        λ u. Keeps-update_sync_log subject log success none

  charge_found-Once :
      (p : ChargePayload) (b : SyncBooking)
      → Leads (Once subject) (Once subject) (charge_found ezee guest_word p b)
  unfolding charge_found
  charge_found-Once p b =
      Leads-first (or_throw b.ezee_reservation_no not_synced) _ (λ s h. h) (Keeps-or_throw _ _)
        λ number.
          Leads-first (create_sync_log (of_booking p.eri) charge_action) _ (λ s h. h)
            (Keeps-create_sync_log subject _ _)
            λ log.
              Leads-on_error subject ezee _ _ _ (charge_kept p b number log)
                (λ e. Keeps-update_sync_log subject log failure (some e))

  handle_add_extra_charge-Once :
      (p : ChargePayload) → Keeps (Once subject) (handle_add_extra_charge ezee guest_word p)
  unfolding handle_add_extra_charge
  handle_add_extra_charge-Once p = Keeps-bind (gets (find_booking p.eri)) _ (Keeps-gets _) λ found.
      Keeps-if_found found (charge_found ezee guest_word p) (pure tt)
        (λ b. record { after = (charge_found-Once p b).after }) (Keeps-pure tt)

  process-Once : (m : SyncMessage) → Keeps (Once subject) (process ezee guest_word m)
  unfolding process
  process-Once (insert_message p) = handle_insert_booking-Once subject ezee guest_word p
  process-Once (charge_message p) = handle_add_extra_charge-Once p
  process-Once (update_message eri) = Keeps-pure tt
  process-Once (colive_message p) = handle_insert_colive_booking-Once p
  process-Once unknown_message = Keeps-pure tt

  process_all-Once :
      (ms : List SyncMessage) (s : Worker)
      → Once subject s
      → Once subject (process_all ezee guest_word ms s)
  unfolding process_all
  process_all-Once [] s held = held
  process_all-Once (m ∷ ms) s held =
      process_all-Once ms (process ezee guest_word m s).1 ((process-Once m).after s held)

  -- Whatever messages the queue delivers, and however often, and whatever eZee answers: where it
  -- had taken no InsertBooking about a booking or a draft before, it takes at most one, and then the
  -- booking or the draft holds a reservation number. A call that throws counts as not taken.
  pub process_all_once :
      (ms : List SyncMessage) (s : Worker)
      → inserts subject s.sent ≡ 0
      → let s' = process_all ezee guest_word ms s in
        (inserts subject s'.sent ≤ 1) × (inserts subject s'.sent ≢ 0 → Numbered subject s')
  process_all_once ms s none' = elim (process_all-Once ms s (inl none')) [
    | inl z ↦ (ground arith, λ some'. absurd (some' z))
    | inr (one, rows) ↦ (ground arith, λ some'. rows)
  ]
