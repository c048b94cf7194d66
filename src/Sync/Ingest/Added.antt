-- ===== src/Sync/Ingest/Added.antt =====
-- What the turn of a property adds, told from eZee's answer alone (`ingestExternalBookings`).
use mathlib.Core.List.{Memᴰ}
use vibehouse_backend.Common.{
  both-All, ℕ, ◌≡◌, ◌≢◌, ◌⊎◌, inl, inr, refl, ap, Bool, true, false, Option, none, some, List, [],
  ◌∷◌, ◌++◌, map, find, is_some, where_, holds_id, ==-eq, All, imp-All, Bool-cases, arith,
}
use vibehouse_backend.Sync.{
  Eri, tds, external, eri_eq, Status, confirmed, checked_in, checked_out, EzeeStatus,
  confirmed_reservation, cancelled_reservation, arrived, departed, absent, dayuse_reservation,
  unknown, ezee_status_map, Cached, Sync,
}
use vibehouse_backend.Sync.Ingest.{
  Reservation, has_number, has_eri, is_dead, status_or_confirmed, new_booking, ingest_property,
}
use vibehouse_backend.Sync.Ingest.Once.{Distinct, fresh, ingest_property_lem}

-- The status with which a reservation comes in; a cancelled one and a no-show stay out.
abbrev taken_as : EzeeStatus → Option Status
taken_as confirmed_reservation = some confirmed
taken_as dayuse_reservation = some confirmed
taken_as arrived = some checked_in
taken_as departed = some checked_out
taken_as cancelled_reservation = none
taken_as absent = none
taken_as (unknown n) = some confirmed

module _ (city property_id : ℕ) (rows : List Cached) where
  -- The booking is the reservation's, by its number or by its id; the property is not looked at.
  abbrev Stands : Reservation → Cached → Type 0
  Stands r b = (b.reservation_no ≡ some r.reservation_no) ⊎ (b.eri ≡ external city r.reservation_no)

  abbrev Differs : Reservation → Cached → Type 0
  Differs r b =
      (b.reservation_no ≢ some r.reservation_no) × (b.eri ≢ external city r.reservation_no)

  -- What is added for a list of reservations: nothing for one that is cached, whatever its property,
  -- nothing for one that is cancelled or never arrived, and one booking for each other.
  pub data Added : List Reservation → List Cached → Type 0 where
    done : Added [] []
    cached :
        {r : Reservation} {rs : List Reservation} {bs : List Cached} (b : Cached)
        → Memᴰ b rows
        → Stands r b
        → Added rs bs
        → Added (r ∷ rs) bs
    dead :
        {r : Reservation} {rs : List Reservation} {bs : List Cached}
        → taken_as r.status ≡ none
        → Added rs bs
        → Added (r ∷ rs) bs
    new :
        {r : Reservation} {rs : List Reservation} {bs : List Cached} {status : Status}
        → All (Differs r) rows
        → taken_as r.status ≡ some status
        → Added rs bs
        → Added (r ∷ rs) (
            record {
              eri = external city r.reservation_no;
              property_id = property_id;
              reservation_no = some r.reservation_no;
              room_number = r.room_name;
              status = status;
              is_active = true;
              booker_email = r.email;
              booker_phone = r.phone;
              paid = none;
            }
            ∷ bs)

found_member :
    {A : Type 0} (p : A → Bool) (xs : List A)
    → is_some (find p xs) ≡ true
    → (x : A) × Memᴰ x xs × (p x ≡ true)
unfolding find
found_member p [] h = absurd (cc)
found_member p (x ∷ xs) h = elim (Bool-cases (p x)) [
  | inl hit ↦ (x, Memᴰ.head refl, hit)
  | inr miss ↦ let (y, m, hit) = found_member p xs (rw miss at h) in (y, Memᴰ.tail m, hit)
]

missed_all :
    {A : Type 0} (p : A → Bool) (xs : List A)
    → is_some (find p xs) ≡ false
    → All (λ x. p x ≡ false) xs
unfolding find
missed_all p [] h = tt
missed_all p (x ∷ xs) h = elim (Bool-cases (p x)) [
  | inl hit ↦ absurd (ground arith)
  | inr miss ↦ (miss, missed_all p xs (rw miss at h))
]

eri_eq-true : (a b : Eri) → eri_eq a b ≡ true → a ≡ b
eri_eq-true (tds a) (tds b) h = ap tds (==-eq a b h)
eri_eq-true (external c a) (external d b) h = ground arith
eri_eq-true (tds a) (external d b) h = cc
eri_eq-true (external c a) (tds b) h = cc

eri_eq_self : (a : Eri) → eri_eq a a ≡ true
eri_eq_self (tds a) = ground arith
eri_eq_self (external c a) = ground arith

holds_id-some : (o : Option ℕ) (n : ℕ) → holds_id o n ≡ true → o ≡ some n
holds_id-some none n h = cc
holds_id-some (some m) n h = ap some (==-eq m n h)

dead-taken_as : (e : EzeeStatus) → is_dead (ezee_status_map e) ≡ true → taken_as e ≡ none
unfolding ezee_status_map
dead-taken_as confirmed_reservation h = absurd (cc)
dead-taken_as cancelled_reservation h = refl
dead-taken_as arrived h = absurd (cc)
dead-taken_as departed h = absurd (cc)
dead-taken_as absent h = refl
dead-taken_as dayuse_reservation h = absurd (cc)
dead-taken_as (unknown n) h = absurd (cc)

alive-taken_as :
    (e : EzeeStatus)
    → is_dead (ezee_status_map e) ≡ false
    → taken_as e ≡ some (status_or_confirmed (ezee_status_map e))
unfolding ezee_status_map
alive-taken_as confirmed_reservation h = refl
alive-taken_as cancelled_reservation h = absurd (cc)
alive-taken_as arrived h = refl
alive-taken_as departed h = refl
alive-taken_as absent h = absurd (cc)
alive-taken_as dayuse_reservation h = refl
alive-taken_as (unknown n) h = refl

module _ (city property_id : ℕ) (rows : List Cached) where
  unmatched :
      (r : Reservation)
      → has_number rows r.reservation_no ≡ false
      → has_eri rows (external city r.reservation_no) ≡ false
      → All (Differs city property_id rows r) rows
  unmatched r a b =
      both-All _ _ rows
        (imp-All _ rows (λ c miss same. absurd (ground (arith, same))) (missed_all _ rows a))
        (imp-All _ rows
          (λ c miss same. let hit = eri_eq_self (external city r.reservation_no) in cc)
          (missed_all _ rows b))

  fresh-Added :
      (rs : List Reservation)
      → Added city property_id rows rs
          (map (new_booking city property_id) (fresh city property_id rows rs))
  unfolding where_
  fresh-Added [] = Added.done
  fresh-Added (r ∷ rs) =
      let rest = fresh-Added rs in
      elim (Bool-cases (has_number rows r.reservation_no)) [
        | inl number ↦
            let (b, m, hit) = found_member _ rows number in
            rw number (Added.cached b m (inl (holds_id-some _ _ hit)) rest)
        | inr other ↦ elim (Bool-cases (has_eri rows (external city r.reservation_no))) [
          | inl eri ↦
              let (b, m, hit) = found_member _ rows eri in
              rw (other, eri) (Added.cached b m (inr (eri_eq-true _ _ hit)) rest)
          | inr free ↦ elim (Bool-cases (is_dead (ezee_status_map r.status))) [
            | inl gone ↦ rw (other, free, gone) (Added.dead (dead-taken_as r.status gone) rest)
            | inr alive ↦
                rw (other, free, alive)
                  (Added.new (unmatched r other free) (alive-taken_as r.status alive) rest)
          ]
        ]
      ]

-- If eZee's answer about a property repeats no reservation, the property's turn leaves the cached
-- bookings as they were and appends, in the order of the answer, one booking for each reservation
-- that is neither cancelled nor a no-show and whose number and id no cached booking has, of whatever
-- property: under the property, with the reservation's number, room and contacts, and confirmed,
-- checked in or checked out as eZee says, or confirmed where it says something unknown. Nothing else
-- is added.
pub ingest_property-Added :
    (city property_id : ℕ) (rs : List Reservation) (s : Sync)
    → Distinct rs
    → (added : List Cached) × ((ingest_property city property_id (some rs) s).1.bookings
        ≡ s.bookings ++ added)
      × Added city property_id s.bookings rs added
ingest_property-Added city property_id rs s d = (
  map (new_booking city property_id) (fresh city property_id s.bookings rs),
  ingest_property_lem city property_id rs s d,
  fresh-Added city property_id s.bookings rs,
)
