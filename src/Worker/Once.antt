-- ===== src/Worker/Once.antt =====
-- eZee takes at most one InsertBooking about a booking or a draft, however often its message is
-- delivered.
pub mod Rows
pub mod Bookings
pub mod Deliveries
use vibehouse_backend.Common.{
  ℕ, suc, ◌+◌, ◌≤◌, ◌≡◌, refl, ap, sym, ◌∙◌, Bool, true, false, ◌&&◌, Option, none, some, List, [],
  ◌∷◌, ◌++◌, ◌==◌, length, find, update_where, is_some, if◌then◌else◌, All, find-All, find-true,
  update_where-All, Bool-cases, Option-cases, inl, inr, ◌⊎◌, arith,
}
use vibehouse_backend.Exec.{
  Error, Result, ok, err, Exec, pure, throw, gets, or_throw, throw_if, if_found, ◌>>=◌, ◌>>◌,
  continue,
}
use vibehouse_backend.Exec.Keeps.{
  Keeps, keeps_rules, Keeps-bind, Keeps-gets, Keeps-throw_if, Keeps-if_found, Keeps-pure,
  Keeps-or_throw,
}
use vibehouse_backend.Exec.Leads.{Leads, Leads-then, Leads-first}
use vibehouse_backend.Worker.{
  SyncBooking, Booker, SyncStatus, Draft, RoomTypeRow, Subject, of_booking, of_draft, subject_eq,
  SyncAction, LogStatus, EzeeCall, insert_booking, process_booking, fetch_booking, add_payment,
  Sent, BookingInput, Target, Inserted, AssignedRoom, EzeeAnswers, Worker, Job, set_bookings,
  set_drafts, delete_key, log_call, ending, create_sync_log, update_sync_log, on_error, call_insert,
  call_process, call_payment, call_fetch,
}
use vibehouse_backend.Worker.Handlers.{
  find_booking, write_booking, find_draft, write_draft, quietly, number_booking, pay_targets,
  add_payments, insert_new, insert_or_skip, capture_room, sync_booking, insert_found, booker_of,
  handle_insert_booking, charge_found, handle_add_extra_charge, sync_draft, colive_new,
  handle_insert_colive_booking, process, process_all,
}
use vibehouse_backend.Worker.Messages.{
  InsertPayload, ChargePayload, ColivePayload, SyncMessage, insert_message, charge_message,
  update_message, colive_message, unknown_message,
}

module _ (subject : Subject) where
  -- Whether the call is an InsertBooking about the subject.
  abbrev pub is_insert : EzeeCall → Bool
  is_insert (insert_booking other input) = subject_eq other subject
  is_insert (process_booking n) = false
  is_insert (fetch_booking n) = false
  is_insert (add_payment t n) = false

  -- How many of them eZee took.
  abbrev pub inserts : List Sent → ℕ
  inserts [] = 0
  inserts (c ∷ cs) = (if c.taken && is_insert c.call then 1 else 0) + inserts cs

  pub inserts-append :
      (cs : List Sent) (c : Sent) → inserts (cs ++ c ∷ []) ≡ inserts cs + inserts (c ∷ [])
  inserts-append [] c = ground arith
  inserts-append (d ∷ cs) c = let ih = inserts-append cs c in ground arith

  -- The rows of the subject have their reservation number.
  abbrev pub Numbered : Worker → Type 0
  Numbered s =
      All (λ b. subject_eq (of_booking b.eri) subject ≡ true → is_some b.ezee_reservation_no ≡ true)
        s.bookings
      × All (λ d. subject_eq (of_draft d.id) subject ≡ true → is_some d.ezee_reservation_no ≡ true)
          s.drafts

  abbrev pub Once : Worker → Type 0
  Once s = (inserts s.sent ≡ 0) ⊎ ((inserts s.sent ≡ 1) × Numbered s)

  -- A call that is no such InsertBooking.
  pub Once-log_call :
      (call : EzeeCall) (taken : Bool) (s : Worker)
      → is_insert call ≡ false
      → Once s
      → Once (log_call call taken s)
  Once-log_call call taken s other held =
      let count = inserts-append s.sent (record { call = call; taken = taken }) in
      let same : inserts (log_call call taken s).sent ≡ inserts s.sent = ground arith in
      elim held [ inl none' ↦ inl (same ∙ none') | inr (one, rows) ↦ inr (same ∙ one, rows) ]

  pub Keeps-create_sync_log : (e : Subject) (a : SyncAction) → Keeps Once (create_sync_log e a)
  unfolding create_sync_log
  Keeps-create_sync_log e a = record { after = λ s held. held }

  pub Keeps-update_sync_log :
      (n : ℕ) (l : LogStatus) (e : Option Error) → Keeps Once (update_sync_log n l e)
  unfolding update_sync_log
  Keeps-update_sync_log n l e = record { after = λ s held. held }

  pub Keeps-delete_key : (k : ℕ × Option ℕ × Option ℕ) → Keeps Once (delete_key k)
  unfolding delete_key
  Keeps-delete_key k = record { after = λ s held. held }

  pub Keeps-quietly : (act : Job (Unit {0})) → Keeps Once act → Keeps Once (quietly act)
  unfolding quietly
  Keeps-quietly act kept = record { after = kept.after }

  module _ (ezee : EzeeAnswers) where
    pub Keeps-call_process : (n : ℕ) → Keeps Once (call_process ezee n)
    unfolding call_process
    Keeps-call_process n = record {
      after = λ s held. elim (Bool-cases (ezee.to_process (length s.sent))) [
        | inl yes' ↦ rw yes' (Once-log_call (process_booking n) true s refl held)
        | inr no' ↦ rw no' (Once-log_call (process_booking n) false s refl held)
      ];
    }

    pub Keeps-call_payment : (t : Target) (n : ℕ) → Keeps Once (call_payment ezee t n)
    unfolding call_payment
    Keeps-call_payment t n = record {
      after = λ s held. elim (Bool-cases (ezee.to_payment (length s.sent))) [
        | inl yes' ↦ rw yes' (Once-log_call (add_payment t n) true s refl held)
        | inr no' ↦ rw no' (Once-log_call (add_payment t n) false s refl held)
      ];
    }

    pub Keeps-call_fetch : (n : ℕ) → Keeps Once (call_fetch ezee n)
    unfolding call_fetch
    Keeps-call_fetch n = record {
      after = λ s held. elim (Option-cases (ezee.to_fetch (length s.sent))) [
        | inl no' ↦ rw no' (Once-log_call (fetch_booking n) false s refl held)
        | inr (r, yes') ↦ rw yes' (Once-log_call (fetch_booking n) true s refl held)
      ];
    }

    pub ruleset once_rules = (
      keeps_rules, Keeps-create_sync_log, Keeps-update_sync_log, Keeps-delete_key, Keeps-quietly,
      Keeps-call_process, Keeps-call_payment, Keeps-call_fetch,
    )

    pub Keeps-write_booking :
        (eri : ℕ) (f : SyncBooking → SyncBooking)
        → ((b : SyncBooking) → (f b).eri ≡ b.eri)
        → ((b : SyncBooking)
            → is_some b.ezee_reservation_no ≡ true
            → is_some (f b).ezee_reservation_no ≡ true)
        → Keeps Once (write_booking eri f)
    unfolding set_bookings
    Keeps-write_booking eri f same numbered = record {
      after = λ s held. elim held [
        | inl none' ↦ inl none'
        | inr (one, rows) ↦ inr (
          one,
          (
            update_where-All _ (λ b. b.eri == eri) f s.bookings
                (λ b hit h of'. numbered b (h (rw (← same b) of'))) rows.0,
            rows.1,
          ),
        )
      ];
    }

    pub Keeps-write_draft :
        (id : ℕ) (f : Draft → Draft)
        → ((d : Draft) → (f d).id ≡ d.id)
        → ((d : Draft)
            → is_some d.ezee_reservation_no ≡ true
            → is_some (f d).ezee_reservation_no ≡ true)
        → Keeps Once (write_draft id f)
    unfolding set_drafts
    Keeps-write_draft id f same numbered = record {
      after = λ s held. elim held [
        | inl none' ↦ inl none'
        | inr (one, rows) ↦ inr (
          one,
          (
            rows.0,
            update_where-All _ (λ d. d.id == id) f s.drafts
                (λ d hit h of'. numbered d (h (rw (← same d) of'))) rows.1,
          ),
        )
      ];
    }

    pub Leads-on_error :
        (Pre : Worker → Type 0) (act : Job (Unit {0})) (handler : Error → Job (Unit {0}))
        → Leads Pre Once act
        → ((e : Error) → Keeps Once (handler e))
        → Leads Pre Once (on_error act handler)
    unfolding on_error
    Leads-on_error Pre act handler first rest = record {
      after = λ s held. let (r, between) = act s in finish r between (first.after s held);
    }
      where
        finish :
            (r : Result (Unit {0})) (between : Worker)
            → Once between
            → Once (ending r handler between).1
        finish (ok a) between h = h
        finish (err e) between h = (rest e).after between h

    module _ (guest_word : ℕ) where
      Keeps-pay_targets :
          (amount per_bed i : ℕ) (ts : List Target)
          → Keeps Once (pay_targets ezee guest_word amount per_bed i ts)
      unfolding pay_targets
      Keeps-pay_targets amount per_bed i [] = Keeps-pure tt
      Keeps-pay_targets amount per_bed i (t ∷ []) = search once_rules
      Keeps-pay_targets amount per_bed i (t ∷ u ∷ ts) =
          Keeps-bind (quietly (call_payment ezee t per_bed)) _ (search once_rules)
            (λ _. Keeps-pay_targets amount per_bed (suc i) (u ∷ ts))

      pub Keeps-capture_room : (eri n : ℕ) → Keeps Once (capture_room ezee guest_word eri n)
      unfolding capture_room
      Keeps-capture_room eri n = Keeps-quietly _ (
          Keeps-bind _ _ (Keeps-call_fetch n) (λ found.
            Keeps-if_found found _ _ (λ room. Keeps-write_booking eri _ (λ b. refl) (λ b h. h))
              (Keeps-pure tt)))

      pub Keeps-add_payments :
          (n : ℕ) (r : Inserted) → Keeps Once (add_payments ezee guest_word n r)
      unfolding add_payments
      Keeps-add_payments n r = Keeps-pay_targets n _ 0 _
