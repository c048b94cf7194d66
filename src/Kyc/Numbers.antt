-- ===== src/Kyc/Numbers.antt =====
-- What the guests' writes answer: the number of a new slot, and the age of who is pre-verified.
use vibehouse_backend.Common.{
  ℕ, ◌<◌, ◌≤◌, ◌+◌, ◌≡◌, ap, sym, refl, true, none, List, [], ◌∷◌, ltb, All, imp-All, ◌++◌,
  Option-cases, Bool-cases, inl, inr, arith,
}
use vibehouse_backend.Exec.{ok, err, ◌>>=◌}
use vibehouse_backend.Tables.{Slot, not_started, is_verified}
use vibehouse_backend.World.{World, Services, draw_uuid, set_slots}
use vibehouse_backend.Booking.Link.{approved_access}
use vibehouse_backend.Booking.Slots.{slots_of}
use vibehouse_backend.Kyc.{slot_in, open_slot}
use vibehouse_backend.Kyc.Age.{Day, age, NotBefore, birthday, age_lem}
use vibehouse_backend.Kyc.Slots.{SubmitKyc, highest, number_taken, add_slot, submit_kyc}

highest_lem : (rows : List Slot) → All (λ s. s.slot_number ≤ highest rows) rows
highest_lem [] = tt
highest_lem (s ∷ rows) = (
  ground arith,
  imp-All _ rows (λ x (h : x.slot_number ≤ highest rows). ground arith) (highest_lem rows),
)

module _ (env : Services) where
  -- A slot that `addSlot` answers has a higher number than every slot of the booking, belongs to
  -- the booking and to no guest yet, and is the only row that is added.
  pub add_slot_lem :
      (guest eri : ℕ) (w : World) {s : Slot}
      → (add_slot env guest eri w).0 ≡ ok s
      → All (λ x. x.slot_number < s.slot_number) (slots_of eri w)
        × (s.ezee_reservation_id ≡ eri)
        × (s.guest_id ≡ none)
        × ((add_slot env guest eri w).1.db ≡ record w.db { slots = w.db.slots ++ s ∷ [] })
  unfolding add_slot draw_uuid set_slots ◌>>=◌
  add_slot_lem guest eri w {s} done = elim (Option-cases (approved_access eri guest w)) [
    | inl refused ↦ absurd (cc (rw refused at done))
    | inr (a, allowed) ↦ elim (Bool-cases (number_taken eri (highest (slots_of eri w) + 1) w)) [
      | inl taken ↦ absurd (cc (rw (allowed, taken) at done))
      | inr free ↦
          let e = rw (allowed, free) at done in
          let number : s.slot_number ≡ highest (slots_of eri w) + 1 =
            ap (λ r. elim r [ ok x ↦ x.slot_number | err x ↦ s.slot_number ]) (sym e) in
          let own : s ≡ record {
            id = env.uuid w.drawn;
            ezee_reservation_id = eri;
            slot_number = highest (slots_of eri w) + 1;
            guest_id = none;
            kyc_status = not_started;
          } =
            ap (λ r. elim r [ ok x ↦ x | err x ↦ s ]) (sym e) in
          (
            imp-All _ (slots_of eri w)
                (λ x (h : x.slot_number ≤ highest (slots_of eri w)). ground arith)
                (highest_lem (slots_of eri w)),
            ap (λ x. x.ezee_reservation_id) own,
            ap (λ x. x.guest_id) own,
            rw (allowed, free, own) refl,
          )
    ]
  ]

  -- `submitKyc` answers with a submission only if the guest consents and is of age: today is the
  -- 18th birthday or later.
  pub submit_kyc_lem :
      (today : Day) (guest eri slot : ℕ) (dto : SubmitKyc) (w : World) {id : ℕ}
      → (submit_kyc env today guest eri slot dto w).0 ≡ ok id
      → (dto.consent_given ≡ true) × NotBefore (birthday 18 dto.date_of_birth) today
  unfolding submit_kyc open_slot ◌>>=◌
  submit_kyc_lem today guest eri slot dto w done =
      elim (Option-cases (approved_access eri guest w)) [
        | inl refused ↦ absurd (cc (rw refused at done))
        | inr (a, allowed) ↦ elim (Option-cases (slot_in slot eri w)) [
          | inl missing ↦ absurd (cc (rw (allowed, missing) at done))
          | inr (s, found) ↦ elim (Bool-cases (is_verified s.kyc_status)) [
            | inl locked ↦ absurd (cc (rw (allowed, found, locked) at done))
            | inr open' ↦ elim (Bool-cases dto.consent_given) [
              | inr no_consent ↦ absurd (cc (rw (allowed, found, open', no_consent) at done))
              | inl consent ↦ elim (Bool-cases (ltb (age today dto.date_of_birth) 18)) [
                | inl young ↦ absurd (cc (rw (allowed, found, open', consent, young) at done))
                | inr adult ↦ (consent, (age_lem today dto.date_of_birth).0 (ground arith))
              ]
            ]
          ]
        ]
      ]
