-- ===== src/Booking/Slots/Made.antt =====
-- The slots that `createBookingSlots` makes.
use mathlib.Core.List.{append_assoc, append-nil}
use vibehouse_backend.Common.{
  ℕ, zero, suc, ◌+◌, ◌≤◌, ◌≡◌, refl, sym, ap, ◌∙◌, Option, none, some, List, [], ◌∷◌, ◌++◌, ◌==◌,
  if◌then◌else◌, arith,
}
use vibehouse_backend.Exec.{Result, ok, for_each}
use vibehouse_backend.Exec.Runs.{bind-ok}
use vibehouse_backend.Tables.{Slot, not_started}
use vibehouse_backend.World.{World, Services, set_slots, draw_uuid}
use vibehouse_backend.Booking.Slots.{numbers, create_slot, create_booking_slots}

abbrev done : World → Result (Unit {0}) × World
done w = (ok tt, w)

module _ (env : Services) (eri : ℕ) where
  abbrev slot : ℕ → ℕ → Option ℕ → Slot
  slot drawn i owner = record {
    id = env.uuid drawn;
    ezee_reservation_id = eri;
    slot_number = i;
    guest_id = owner;
    kyc_status = not_started;
  }

  -- n free slots of the booking, numbered from `start` on, with uuids from the `drawn`-th on.
  abbrev pub free_slots : (drawn start n : ℕ) → List Slot
  free_slots drawn start zero = []
  free_slots drawn start (suc n) = slot drawn start none ∷ free_slots (suc drawn) (suc start) n

  abbrev pub with_slots : List Slot → ℕ → World → World
  with_slots rows drawn w = record w { db = record w.db { slots = rows }; drawn = drawn }

  done_eq :
      (w : World) {rows rows' : List Slot} {d d' : ℕ}
      → rows ≡ rows'
      → d ≡ d'
      → done (with_slots rows d w) ≡ done (with_slots rows' d' w)
  done_eq w p q = cc

  slot_step :
      (owner : ℕ → Option ℕ) (i : ℕ) (w : World)
      → create_slot env eri owner i w
        ≡ (ok tt, with_slots (w.db.slots ++ slot w.drawn i (owner i) ∷ []) (suc w.drawn) w)
  unfolding create_slot draw_uuid set_slots
  slot_step owner i w = refl

  rest_run :
      (owner : ℕ → Option ℕ) (start n : ℕ) (w : World)
      → 2 ≤ start
      → ((i : ℕ) → 2 ≤ i → owner i ≡ none)
      → for_each (numbers start n) (create_slot env eri owner) w
        ≡ (ok tt, with_slots (w.db.slots ++ free_slots w.drawn start n) (w.drawn + n) w)
  unfolding for_each numbers
  rest_run owner start zero w h free = done_eq w (sym (append-nil w.db.slots)) (omega arith)
  rest_run owner start (suc n) w h free =
      let owned = free start h in
      let rows = w.db.slots ++ slot w.drawn start (owner start) ∷ [] in
      let listed = free_slots (suc w.drawn) (suc start) n in
      bind-ok (create_slot env eri owner start)
        (λ _. for_each (numbers (suc start) n) (create_slot env eri owner))
        (slot_step owner start w)
      ∙ rest_run owner (suc start) n (with_slots rows (suc w.drawn) w) (omega arith) free
      ∙ done_eq w
          (append_assoc w.db.slots (slot w.drawn start (owner start) ∷ []) listed
            ∙ ap (λ o. w.db.slots ++ (slot w.drawn start o ∷ listed)) owned)
          (omega arith)

  -- `createBookingSlots` for a booking of at least one guest: after the slots that were there, the
  -- table has the booker's slot with the number 1, and then free slots numbered from 2 up to the
  -- number of guests, each with a uuid drawn for it; nothing else changes.
  pub create_booking_slots_lem :
      (guest n : ℕ) (w : World)
      → create_booking_slots env eri (suc n) guest w ≡ (
        ok tt,
        with_slots
            (w.db.slots ++ slot w.drawn 1 (some guest) ∷ free_slots (suc w.drawn) 2 n)
            (w.drawn + suc n)
            w,
      )
  unfolding create_booking_slots for_each
  create_booking_slots_lem guest n w =
      let owner : ℕ → Option ℕ = λ i. if i == 1 then some guest else none in
      let rows = w.db.slots ++ slot w.drawn 1 (some guest) ∷ [] in
      bind-ok (create_slot env eri owner 1)
        (λ _. for_each (numbers 2 n) (create_slot env eri owner)) (slot_step owner 1 w)
      ∙ rest_run owner 2 n (with_slots rows (suc w.drawn) w) (omega arith) (λ i h. (ground arith))
      ∙ done_eq w
          (append_assoc w.db.slots (slot w.drawn 1 (some guest) ∷ [])
            (free_slots (suc w.drawn) 2 n))
          (omega arith)
