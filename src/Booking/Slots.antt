-- ===== src/Booking/Slots.antt =====
-- The guest slots of a booking: `createBookingSlots` and `ensureSlots`.
pub mod Made
use vibehouse_backend.Common.{
  ℕ, zero, suc, Bool, true, false, Option, none, some, List, [], ◌∷◌, ◌++◌, ◌==◌, if◌then◌else◌,
  find, where_, update_where, length,
}
use vibehouse_backend.Exec.{pure, gets, if_found, for_each, ◌>>=◌, ◌>>◌}
use vibehouse_backend.Tables.{Slot, not_started}
use vibehouse_backend.World.{World, Action, Services, set_slots, draw_uuid}

-- The n numbers from `start` on, which a counting loop runs through.
unfoldable pub numbers : ℕ → ℕ → List ℕ
numbers start zero = []
numbers start (suc n) = start ∷ numbers (suc start) n

abbrev pub slots_of : ℕ → World → List Slot
slots_of eri w = where_ (λ s. s.ezee_reservation_id == eri) w.db.slots

abbrev pub is_unassigned : Slot → Bool
is_unassigned s = elim s.guest_id [ none ↦ true | some g ↦ false ]

module _ (env : Services) where
  unfoldable pub create_slot : ℕ → (ℕ → Option ℕ) → ℕ → Action (Unit {0})
  unfolding ◌>>=◌
  create_slot eri owner i = do
    id ← draw_uuid env
    set_slots λ rows.
        rows
        ++ record {
          id = id;
          ezee_reservation_id = eri;
          slot_number = i;
          guest_id = owner i;
          kyc_status = not_started;
        }
          ∷ []

  -- The first slot is the booker's.
  unfoldable pub create_booking_slots : ℕ → ℕ → ℕ → Action (Unit {0})
  unfolding create_slot numbers
  create_booking_slots eri total_guests primary_guest =
      for_each (numbers 1 total_guests)
        (create_slot eri λ i. if i == 1 then some primary_guest else none)

  -- Makes the slots where there are none, and puts the guest into the first free one. The slots of
  -- a booking stand in the table by their numbers.
  unfoldable pub ensure_slots : ℕ → ℕ → ℕ → Action (Unit {0})
  unfolding create_slot numbers ◌>>=◌
  ensure_slots eri guest num_guests = do
    slots ← gets (slots_of eri)
    if length slots == 0
        then for_each (numbers 1 num_guests) (create_slot eri λ i. none)
        else pure tt
    free ← gets (λ w. find is_unassigned (slots_of eri w))
    if_found free
        (λ slot.
          set_slots (update_where (λ s. s.id == slot.id) λ s. record s { guest_id = some guest }))
        (pure tt)
