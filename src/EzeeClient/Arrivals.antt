-- ===== src/EzeeClient/Arrivals.antt =====
-- `fetchReservationsByDateRange`: one summary for each reservation, as the reconciliation takes it.
use vibehouse_backend.Common.{
  ℕ, zero, suc, ◌+◌, ◌≡◌, ◌≢◌, Bool, false, Option, none, some, List, [], ◌∷◌, ◌++◌, map, ◌==◌,
  find, sum_of, is_some, if◌then◌else◌, All, imp-All, map_to-All, Bool-cases, inl, inr, arith,
}
use vibehouse_backend.Exec.{Result, ok, err, ezee_error}
use vibehouse_backend.Sync.{EzeeStatus, unknown, Sync}
use vibehouse_backend.Sync.Ingest.{Reservation, ingest_property, new_booking}
use vibehouse_backend.Sync.Ingest.Once.{Distinct, fresh, ingest_property_lem}

pub record RawTran : Type 0 where
  pub current_status : Option EzeeStatus
  pub room_name : Option ℕ
  pub adult : Option ℕ
  pub child : Option ℕ
  pub email : Option ℕ
  pub mobile : Option ℕ
  pub total_amount_before_tax : Option ℕ

pub record RawReservation : Type 0 where
  pub unique_id : ℕ
  pub trans : List RawTran
  pub email : Option ℕ
  pub mobile : Option ℕ

pub record ArrivalSummary : Type 0 where
  pub reservation : Reservation
  pub no_of_guests : ℕ
  pub total_amount : ℕ

abbrev or_other : Option ℕ → Option ℕ → Option ℕ
or_other none b = b
or_other (some a) b = some a

abbrev count_or : Option ℕ → ℕ → ℕ
count_or none n = n
count_or (some m) n = m

-- `tran.CurrentStatus ?? ''`
abbrev status_or : Option EzeeStatus → EzeeStatus
status_or none = unknown 0
status_or (some s) = s

-- `totalGuests || 1`
abbrev guests_or_one : ℕ → ℕ
guests_or_one n = if n == 0 then 1 else n

unfoldable pub summary_of : RawReservation → RawTran → ArrivalSummary
summary_of r t = record {
  reservation = record {
    reservation_no = r.unique_id;
    status = status_or t.current_status;
    room_name = t.room_name;
    email = or_other r.email t.email;
    phone = or_other r.mobile t.mobile;
  };
  no_of_guests = guests_or_one (sum_of (λ u. count_or u.adult 1 + count_or u.child 0) r.trans);
  total_amount = count_or t.total_amount_before_tax 0;
}

abbrev was_seen : ℕ → List ℕ → Bool
was_seen id seen = is_some (find (λ n. n == id) seen)

abbrev add_summary : RawReservation → List RawTran → List ArrivalSummary → List ArrivalSummary
add_summary r [] rest = rest
add_summary r (t ∷ ts) rest = summary_of r t ∷ rest

-- The loop, with the set of the numbers that were seen.
unfoldable pub summaries : List ℕ → List RawReservation → List ArrivalSummary
summaries seen [] = []
summaries seen (r ∷ rs) =
    let same = summaries seen rs in
    let rest = summaries (r.unique_id ∷ seen) rs in
    if was_seen r.unique_id seen then same else add_summary r r.trans rest

unfoldable pub read_arrivals :
    (error_code : ℕ) → Option (List RawReservation) → Result (List ArrivalSummary)
read_arrivals (suc code) rows = err ezee_error
read_arrivals zero none = ok []
read_arrivals zero (some rows) = ok (summaries [] rows)

abbrev number : ArrivalSummary → ℕ
number a = a.reservation.reservation_no

add_summary-All :
    (P : ArrivalSummary → Type 0) (r : RawReservation) (ts : List RawTran)
    (rest : List ArrivalSummary)
    → ((t : RawTran) → P (summary_of r t))
    → All P rest
    → All P (add_summary r ts rest)
add_summary-All P r [] rest here there = there
add_summary-All P r (t ∷ ts) rest here there = (here t, there)

-- What was seen before is not answered again.
unseen :
    (seen : List ℕ) (rs : List RawReservation)
    → All (λ a. was_seen (number a) seen ≡ false) (summaries seen rs)
unfolding summaries summary_of find
unseen seen [] = tt
unseen seen (r ∷ rs) = elim (Bool-cases (was_seen r.unique_id seen)) [
  | inl hit ↦ rw hit (unseen seen rs)
  | inr miss ↦ rw miss (
      add_summary-All (λ a. was_seen (number a) seen ≡ false) r r.trans _ (λ t. miss)
        (imp-All (λ a. was_seen (number a) (r.unique_id ∷ seen) ≡ false) _ (λ a h. ground arith)
          (unseen (r.unique_id ∷ seen) rs)))
]

other_number : (n id : ℕ) (seen : List ℕ) → was_seen n (id ∷ seen) ≡ false → n ≢ id
unfolding find
other_number n id seen h = ground arith

add_summary-Distinct :
    (r : RawReservation) (ts : List RawTran) (rest : List ArrivalSummary)
    → All (λ a. number a ≢ r.unique_id) rest
    → Distinct (map (λ a. a.reservation) rest)
    → Distinct (map (λ a. a.reservation) (add_summary r ts rest))
unfolding summary_of
add_summary-Distinct r [] rest others d = d
add_summary-Distinct r (t ∷ ts) rest others d =
    (map_to-All (λ a. number a ≢ r.unique_id) _ (λ a. a.reservation) rest (λ a h. h) others, d)

summaries-Distinct :
    (seen : List ℕ) (rs : List RawReservation)
    → Distinct (map (λ a. a.reservation) (summaries seen rs))
unfolding summaries
summaries-Distinct seen [] = tt
summaries-Distinct seen (r ∷ rs) = elim (Bool-cases (was_seen r.unique_id seen)) [
  | inl hit ↦ rw hit (summaries-Distinct seen rs)
  | inr miss ↦ rw miss (
      add_summary-Distinct r r.trans (summaries (r.unique_id ∷ seen) rs)
        (imp-All (λ a. was_seen (number a) (r.unique_id ∷ seen) ≡ false) _
          (λ a h. other_number (number a) r.unique_id seen h) (unseen (r.unique_id ∷ seen) rs))
        (summaries-Distinct (r.unique_id ∷ seen) rs))
]

-- What the client answers is what the reconciliation relies on: no reservation is repeated, so the
-- turn of a property adds one booking for each new reservation, whatever eZee has sent.
ingest_arrivals_lem :
    (city property_id : ℕ) (rows : List RawReservation) (s : Sync)
    → let rs = map (λ a. a.reservation) (summaries [] rows) in
      (ingest_property city property_id (some rs) s).1.bookings
      ≡ s.bookings ++ map (new_booking city property_id) (fresh city property_id s.bookings rs)
ingest_arrivals_lem city property_id rows s =
    ingest_property_lem city property_id (map (λ a. a.reservation) (summaries [] rows)) s
      (summaries-Distinct [] rows)
