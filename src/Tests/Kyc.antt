-- ===== src/Tests/Kyc.antt =====
-- Identity papers, at the small hotel.
use vibehouse_backend.Common.{
  ℕ, ◌≤◌, ◌<◌, ◌≡◌, refl, true, none, some, [], ◌∷◌, ◌++◌, All, find, where_,
}
use mathlib.Core.Logic.{◌↔◌}
use vibehouse_backend.Tables.{Slot, Submission, verified, not_started}
use vibehouse_backend.World.{World, draw_uuid, set_submissions, set_slots}
use vibehouse_backend.Booking.Slots.{slots_of}
use vibehouse_backend.Kyc.Age.{Day, age, NotBefore, birthday, age_lem}
use vibehouse_backend.Kyc.Slots.{SubmitKyc, submit_kyc, add_slot}
use vibehouse_backend.Kyc.Numbers.{add_slot_lem, submit_kyc_lem}
use vibehouse_backend.Tests.Data.{env, start, hotel}

abbrev done_slot : Slot
done_slot = record {
  id = 61;
  ezee_reservation_id = 31;
  slot_number = 1;
  guest_id = some 7;
  kyc_status = verified;
}

abbrev open_slot : Slot
open_slot = record {
  id = 62;
  ezee_reservation_id = 31;
  slot_number = 4;
  guest_id = none;
  kyc_status = not_started;
}

abbrev papers : Submission
papers = record {
  id = 71;
  slot_id = some 61;
  ezee_reservation_id = 31;
  guest_id = 7;
  submitted_by_guest_id = some 7;
  status = verified;
  front_image_url = some 5;
  back_image_url = none;
}

abbrev here : World
here = record start {
  db = record hotel { slots = done_slot ∷ open_slot ∷ []; submissions = papers ∷ [] };
}

abbrev day : ℕ → ℕ → ℕ → Day
day y m d = record { year = y; month = m; date = d }

abbrev form : SubmitKyc
form = record {
  consent_given = true;
  date_of_birth = day 2008 2 10;
  front_image_url = some 6;
  back_image_url = none;
}

abbrev new_slot : Slot
new_slot = record {
  id = 100;
  ezee_reservation_id = 31;
  slot_number = 5;
  guest_id = none;
  kyc_status = not_started;
}

add_slot_lem_example :
    All (λ x. x.slot_number < 5) (slots_of 31 here)
    × (new_slot.ezee_reservation_id ≡ 31)
    × (new_slot.guest_id ≡ none)
    × ((add_slot env 7 31 here).1.db ≡ record here.db { slots = here.db.slots ++ new_slot ∷ [] })
unfolding add_slot find where_ draw_uuid set_slots
add_slot_lem_example = add_slot_lem env 7 31 here {s = new_slot} refl

-- On the 18th birthday the guest is pre-verified.
submit_kyc_lem_example :
    (form.consent_given ≡ true) × NotBefore (birthday 18 form.date_of_birth) (day 2026 2 10)
unfolding submit_kyc find age draw_uuid set_submissions set_slots
submit_kyc_lem_example = submit_kyc_lem env (day 2026 2 10) 7 31 62 form here {id = 100} refl

age_lem_example :
    (18 ≤ age (day 2026 2 9) (day 2008 2 10))
    ↔ NotBefore (birthday 18 (day 2008 2 10)) (day 2026 2 9)
age_lem_example = age_lem (day 2026 2 9) (day 2008 2 10)
