-- ===== src/Booking/Rooms/Quotes.antt =====
-- `validateRoomSelections` against a description of what it accepts and what it charges.
use mathlib.Core.List.{append-nil, append_assoc}
use vibehouse_backend.Common.{
  ℕ, ◌+◌, ◌*◌, ◌≤◌, ◌≡◌, refl, ap, ◌∙◌, false, some, List, [], ◌∷◌, ◌++◌, ltb, ◌==◌, find, sum_of,
  Option-cases, inl, inr, arith, sym,
}
use vibehouse_backend.Exec.{ok}
use vibehouse_backend.Booking.Rooms.{
  RoomOption, RoomSelection, ValidatedRoom, RoomTotals, mismatched, totals, check_rooms,
  validate_room_selections,
}

-- The quotes with the sum of their lines.
abbrev pub quote_of : List ValidatedRoom → ℕ → RoomTotals
quote_of vs guests = totals vs (sum_of (λ v. v.line_total) vs) guests

module _ (nights : ℕ) (rooms : List RoomOption) where
  -- `v` answers the selection `s`: the room type is offered, has the beds, and is charged by the
  -- bed and the night.
  abbrev pub Quotes : RoomSelection → ValidatedRoom → Type 0
  Quotes s v =
      (find (λ r. r.id == s.room_type_id) rooms ≡ some v.room_type)
      × (v.quantity ≡ s.quantity)
      × (s.quantity ≤ v.room_type.available_beds)
      × (mismatched s.guests s.quantity ≡ false)
      × (v.line_total ≡ v.room_type.base_price_per_night * nights * s.quantity)

  abbrev pub Quoted : List RoomSelection → List ValidatedRoom → Type 0
  Quoted [] [] = Unit
  Quoted [] (v ∷ vs) = ⊥
  Quoted (s ∷ ss) [] = ⊥
  Quoted (s ∷ ss) (v ∷ vs) = Quotes s v × Quoted ss vs

  abbrev grown : RoomTotals → List ValidatedRoom → ℕ → RoomTotals
  grown t vs guests =
      totals (t.validated_rooms ++ vs) (t.room_total + sum_of (λ v. v.line_total) vs)
        (t.total_guests + guests)

  totals_cong :
      {vs vs' : List ValidatedRoom} {m m' n n' : ℕ}
      → vs ≡ vs'
      → m ≡ m'
      → n ≡ n'
      → totals vs m n ≡ totals vs' m' n'
  totals_cong p q r = cc

  grown-nil : (t : RoomTotals) → grown t [] 0 ≡ t
  grown-nil t = totals_cong (append-nil t.validated_rooms) (omega arith) (omega arith)

  grown-cons :
      (t : RoomTotals) (v : ValidatedRoom) (vs : List ValidatedRoom) (n : ℕ)
      → grown (grown t (v ∷ []) v.quantity) vs n ≡ grown t (v ∷ vs) (v.quantity + n)
  grown-cons t v vs n =
      totals_cong (append_assoc t.validated_rooms (v ∷ []) vs) (omega arith) (omega arith)

  abbrev quote : RoomOption → RoomSelection → ValidatedRoom
  quote rt s = record {
    room_type = rt;
    quantity = s.quantity;
    line_total = rt.base_price_per_night * nights * s.quantity;
  }

  quote-Quotes : (s : RoomSelection) (v : ValidatedRoom) → Quotes s v → quote v.room_type s ≡ v
  quote-Quotes s v (found, same, beds, guests, line) = cc

  check_rooms-quote :
      (s : RoomSelection) (ss : List RoomSelection) (rt : RoomOption) (t : RoomTotals)
      → find (λ r. r.id == s.room_type_id) rooms ≡ some rt
      → s.quantity ≤ rt.available_beds
      → mismatched s.guests s.quantity ≡ false
      → check_rooms nights rooms (s ∷ ss) t
        ≡ check_rooms nights rooms ss (grown t (quote rt s ∷ []) s.quantity)
  unfolding check_rooms
  check_rooms-quote s ss rt t found beds guests =
      let enough : ltb rt.available_beds s.quantity ≡ false = ground arith in ground arith

  check_rooms_complete :
      (ss : List RoomSelection) (vs : List ValidatedRoom) (t : RoomTotals)
      → Quoted ss vs
      → check_rooms nights rooms ss t ≡ ok (grown t vs (sum_of (λ s. s.quantity) ss))
  unfolding check_rooms
  check_rooms_complete [] [] t q = ap ok (sym (grown-nil t))
  check_rooms_complete [] (v ∷ vs) t q = absurd q
  check_rooms_complete (s ∷ ss) [] t q = absurd q
  check_rooms_complete (s ∷ ss) (v ∷ vs) t (h, q) =
      let (found, same, beds, guests, line) = h in
      let quoted = quote-Quotes s v h in
      let step = check_rooms-quote s ss v.room_type t found beds guests in
      let rest = check_rooms_complete ss vs (grown t (v ∷ []) v.quantity) q in
      let sums = grown-cons t v vs (sum_of (λ s. s.quantity) ss) in cc

  -- A selection that the loop lets pass.
  check_rooms_inv :
      (s : RoomSelection) (ss : List RoomSelection) (t : RoomTotals) {t' : RoomTotals}
      → check_rooms nights rooms (s ∷ ss) t ≡ ok t'
      → (v : ValidatedRoom) × Quotes s v
        × (check_rooms nights rooms ss (grown t (v ∷ []) v.quantity) ≡ ok t')
  unfolding check_rooms
  check_rooms_inv s ss t e = elim (Option-cases (find (λ r. r.id == s.room_type_id) rooms)) [
    | inl missing ↦ absurd (ground arith)
    | inr (rt, found) ↦
        let beds : s.quantity ≤ rt.available_beds = ground arith in
        let guests : mismatched s.guests s.quantity ≡ false = ground arith in
        (
          quote rt s,
          (found, refl, beds, guests, refl),
          sym (check_rooms-quote s ss rt t found beds guests) ∙ e,
        )
  ]

  check_rooms_sound :
      (ss : List RoomSelection) (t : RoomTotals) {t' : RoomTotals}
      → check_rooms nights rooms ss t ≡ ok t'
      → (vs : List ValidatedRoom) × Quoted ss vs × (t' ≡ grown t vs (sum_of (λ s. s.quantity) ss))
  unfolding check_rooms
  check_rooms_sound [] t {t'} e =
      let same : t ≡ t' = ground arith in ([], tt, sym same ∙ sym (grown-nil t))
  check_rooms_sound (s ∷ ss) t e =
      let (v, h, rest) = check_rooms_inv s ss t e in
      let (vs, q, sums) = check_rooms_sound ss (grown t (v ∷ []) v.quantity) rest in
      let joined = grown-cons t v vs (sum_of (λ s. s.quantity) ss) in
      let beds = h.1 in (v ∷ vs, (h, q), cc)

  from_zero : (vs : List ValidatedRoom) (n : ℕ) → grown (totals [] 0 0) vs n ≡ quote_of vs n
  from_zero vs n = totals_cong refl (omega arith) (omega arith)

  -- `validateRoomSelections` answers with totals only where no more than six beds are asked for;
  -- then every selection has a quote, and the answer consists of the quotes in the order of the
  -- selections, the sum of their lines, and as many guests as beds.
  pub validate_room_selections_sound :
      (ss : List RoomSelection) {t : RoomTotals}
      → validate_room_selections ss rooms nights ≡ ok t
      → (sum_of (λ s. s.quantity) ss ≤ 6)
        × (vs : List ValidatedRoom) × Quoted ss vs
        × (t ≡ quote_of vs (sum_of (λ s. s.quantity) ss))
  unfolding validate_room_selections
  validate_room_selections_sound ss {t} e =
      let few : sum_of (λ s. s.quantity) ss ≤ 6 = ground arith in
      let ran : check_rooms nights rooms ss (totals [] 0 0) ≡ ok t = ground arith in
      let (vs, q, same) = check_rooms_sound ss (totals [] 0 0) ran in
      (few, vs, q, same ∙ from_zero vs (sum_of (λ s. s.quantity) ss))

  -- Where no more than six beds are asked for and every selection has a quote, the whole request
  -- is accepted, with these quotes and their sums.
  pub validate_room_selections_complete :
      (ss : List RoomSelection) (vs : List ValidatedRoom)
      → sum_of (λ s. s.quantity) ss ≤ 6
      → Quoted ss vs
      → validate_room_selections ss rooms nights ≡ ok (quote_of vs (sum_of (λ s. s.quantity) ss))
  unfolding validate_room_selections
  validate_room_selections_complete ss vs few q =
      let ran = check_rooms_complete ss vs (totals [] 0 0) q in
      let same = from_zero vs (sum_of (λ s. s.quantity) ss) in ground arith
