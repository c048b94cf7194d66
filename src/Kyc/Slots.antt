-- ===== src/Kyc/Slots.antt =====
-- A guest's writes: `submitKyc`, `addSlot`, `deleteSlot`.
use vibehouse_backend.Common.{
  ℕ, ◌+◌, Bool, true, false, not, ◌&&◌, Option, none, some, List, [], ◌∷◌, ◌++◌, ltb, ◌==◌,
  holds_id, if◌then◌else◌, find, update_where, delete_where,
}
use vibehouse_backend.Exec.{
  pure, gets, if_found, or_throw, throw_if, ◌>>=◌, ◌>>◌, forbidden, no_consent, under_age,
  unique_violation,
}
use vibehouse_backend.Tables.{Slot, Submission, not_started, pre_verified}
use vibehouse_backend.World.{World, Action, Services, set_slots, set_submissions, draw_uuid}
use vibehouse_backend.Booking.Link.{approved_access}
use vibehouse_backend.Booking.Slots.{slots_of}
use vibehouse_backend.Kyc.Age.{Day, age}
use vibehouse_backend.Kyc.{open_slot}

pub record SubmitKyc : Type 0 where
  pub consent_given : Bool
  pub date_of_birth : Day
  pub front_image_url : Option ℕ
  pub back_image_url : Option ℕ

-- `slot.guest_id ?? guestId`
abbrev pub guest_or : Option ℕ → ℕ → ℕ
guest_or none caller = caller
guest_or (some g) caller = g

-- `kycData`, written over an old submission or into a new one.
unfoldable pub kyc_data : (guest eri slot : ℕ) → Option ℕ → SubmitKyc → Submission → Submission
kyc_data guest eri slot owner dto k = record k {
  slot_id = some slot;
  ezee_reservation_id = eri;
  guest_id = guest_or owner guest;
  submitted_by_guest_id = some guest;
  status = pre_verified;
  front_image_url = dto.front_image_url;
  back_image_url = dto.back_image_url;
}

abbrev pub submission_of : ℕ → World → Option Submission
submission_of slot w = find (λ k. holds_id k.slot_id slot) w.db.submissions

-- A row that `kyc_data` fills.
abbrev blank : ℕ → Submission
blank id = record {
  id = id;
  slot_id = none;
  ezee_reservation_id = 0;
  guest_id = 0;
  submitted_by_guest_id = none;
  status = not_started;
  front_image_url = none;
  back_image_url = none;
}

-- The number of the first slot when they are sorted by it, the highest first.
abbrev pub highest : List Slot → ℕ
highest [] = 0
highest (s ∷ rest) = let h = highest rest in if ltb h s.slot_number then s.slot_number else h

-- The number of a slot is unique within its booking.
abbrev pub number_taken : ℕ → ℕ → World → Bool
number_taken eri n w =
    elim (find (λ s. s.ezee_reservation_id == eri && s.slot_number == n) w.db.slots) [
      | none ↦ false
      | some s ↦ true
    ]

module _ (env : Services) where
  unfoldable pub put_submission : (guest eri slot : ℕ) → Option ℕ → SubmitKyc → Action ℕ
  unfolding ◌>>=◌
  put_submission guest eri slot owner dto = do
    existing ← gets (submission_of slot)
    if_found existing
        (λ k. do
          set_submissions (update_where (λ r. r.id == k.id) (kyc_data guest eri slot owner dto))
          pure k.id)
        (do
          id ← draw_uuid env
          set_submissions λ rows. rows ++ kyc_data guest eri slot owner dto (blank id) ∷ []
          pure id)

  -- `today` is the server's date.
  unfoldable pub submit_kyc : (today : Day) → (guest eri slot : ℕ) → SubmitKyc → Action ℕ
  unfolding open_slot put_submission ◌>>=◌
  submit_kyc today guest eri slot dto = do
    s ← open_slot guest eri slot
    throw_if (not dto.consent_given) no_consent
    throw_if (ltb (age today dto.date_of_birth) 18) under_age
    id ← put_submission guest eri slot s.guest_id dto
    set_slots (update_where (λ s. s.id == slot) λ s. record s { kyc_status = pre_verified })
    pure id

  unfoldable pub add_slot : (guest eri : ℕ) → Action Slot
  unfolding ◌>>=◌
  add_slot guest eri = do
    or_throw (← gets (approved_access eri guest)) forbidden
    existing ← gets (slots_of eri)
    let number = highest existing + 1
    id ← draw_uuid env
    taken ← gets (number_taken eri number)
    throw_if taken unique_violation
    let slot : Slot = record {
      id = id;
      ezee_reservation_id = eri;
      slot_number = number;
      guest_id = none;
      kyc_status = not_started;
    }
    set_slots λ rows. rows ++ slot ∷ []
    pure slot

unfoldable pub delete_slot : (guest eri slot : ℕ) → Action (Unit {0})
unfolding open_slot ◌>>=◌
delete_slot guest eri slot = do
  open_slot guest eri slot
  set_submissions (delete_where λ k. holds_id k.slot_id slot)
  set_slots (delete_where λ s. s.id == slot)
