-- ===== src/Sync/Drift/Passes.antt =====
-- A pass of `reconcileEzeeState` as one write to the table.
use vibehouse_backend.Common.{
  is_some, ℕ, ◌≡◌, refl, ap, ◌∙◌, Bool, true, false, ◌||◌, Option, none, some, List, [], ◌∷◌, ◌++◌,
  ==_self, holds_id, update_where, All, Bool-cases, inl, inr, if◌then◌else◌,
}
use mathlib.Core.List.{append-nil}
use vibehouse_backend.Exec.{ok, pure, ◌>>=◌}
use vibehouse_backend.Sync.{
  Eri, tds, external, eri_eq, Status, confirmed, cancelled, checked_in, checked_out, no_show,
  pending_payment, status_eq, EzeeStatus, ezee_status_map, Cached, LockRequest, Sync, Fetched,
  failed, not_found, without_tran, tran, set_bookings, request_lock,
}
use vibehouse_backend.Sync.Drift.{
  is_synced, status_drift, room_drift, new_status, new_room, room_or, arrives, updated,
  correct_drift, ask, answer,
}

status_eq_self : (s : Status) → status_eq s s ≡ true
status_eq_self pending_payment = refl
status_eq_self confirmed = refl
status_eq_self cancelled = refl
status_eq_self checked_in = refl
status_eq_self checked_out = refl
status_eq_self no_show = refl

-- A row that was written has no drift left.
pub no_status_drift :
    (o : Option Status) (r : Option ℕ) (b : Cached)
    → status_drift o (new_room r (new_status (status_drift o b) b)) ≡ none
no_status_drift none none b = refl
no_status_drift none (some r) b = refl
no_status_drift (some s) none b = elim (Bool-cases (status_eq s b.status)) [
  | inl same ↦ rw (same, same) refl
  | inr other ↦ rw (other, status_eq_self s) refl
]
no_status_drift (some s) (some r) b = elim (Bool-cases (status_eq s b.status)) [
  | inl same ↦ rw (same, same) refl
  | inr other ↦ rw (other, status_eq_self s) refl
]

pub no_room_drift :
    (o : Option Status) (room : Option ℕ) (b : Cached)
    → room_drift room (new_room (room_drift room b) (new_status o b)) ≡ none
no_room_drift o none b = refl
no_room_drift none (some r) b = elim (Bool-cases (holds_id b.room_number r)) [
  | inl same ↦ rw (same, same) refl
  | inr other ↦ rw (other, ==_self r) refl
]
no_room_drift (some s) (some r) b = elim (Bool-cases (holds_id b.room_number r)) [
  | inl same ↦ rw (same, same) refl
  | inr other ↦ rw (other, ==_self r) refl
]

updated_again :
    (st : EzeeStatus) (room : Option ℕ) (b : Cached)
    → updated st room (updated st room b) ≡ updated st room b
unfolding updated
updated_again st room b =
    rw
      (
        no_status_drift (ezee_status_map st) (room_drift room b) b,
        no_room_drift (status_drift (ezee_status_map st) b) room b,
      )
      refl

updated_number :
    (st : EzeeStatus) (room : Option ℕ) (b : Cached)
    → ((updated st room b).reservation_no ≡ b.reservation_no)
      × ((updated st room b).property_id ≡ b.property_id)
      × ((updated st room b).eri ≡ b.eri)
unfolding updated
updated_number st room b = go (status_drift (ezee_status_map st) b) (room_drift room b)
  where
    go :
        (o : Option Status) (r : Option ℕ)
        → ((new_room r (new_status o b)).reservation_no ≡ b.reservation_no)
          × ((new_room r (new_status o b)).property_id ≡ b.property_id)
          × ((new_room r (new_status o b)).eri ≡ b.eri)
    go none none = (refl, refl, refl)
    go none (some r) = (refl, refl, refl)
    go (some s) none = (refl, refl, refl)
    go (some s) (some r) = (refl, refl, refl)

-- A row after the answer about it.
abbrev pub corrected : Fetched → Cached → Cached
corrected (tran st room) b = updated st room b
corrected failed b = b
corrected not_found b = b
corrected without_tran b = b

module _ (ezee : ℕ → ℕ → Fetched) where
  -- What a pass makes of a row.
  unfoldable pub step : Cached → Cached
  step b = if is_synced b then corrected (answer ezee b) b else b

  corrected_again : (a : Fetched) (b : Cached) → corrected a (corrected a b) ≡ corrected a b
  corrected_again failed b = refl
  corrected_again not_found b = refl
  corrected_again without_tran b = refl
  corrected_again (tran st room) b = updated_again st room b

  pub corrected_key :
      (a : Fetched) (b : Cached)
      → ((corrected a b).eri ≡ b.eri) × (answer ezee (corrected a b) ≡ answer ezee b)
  corrected_key failed b = (refl, refl)
  corrected_key not_found b = (refl, refl)
  corrected_key without_tran b = (refl, refl)
  corrected_key (tran st room) b =
      let (n, p, e) = updated_number st room b in
      (e, ap (ask ezee (updated st room b).property_id) n ∙ ap (λ x. ask ezee x b.reservation_no) p)

  pub step_twice : (b : Cached) → step (step b) ≡ step b
  unfolding step
  step_twice b = elim (Bool-cases (is_synced b)) [
    | inr skip ↦ rw (skip, skip) refl
    | inl read' ↦
        let key = corrected_key (answer ezee b) b in
        elim (Bool-cases (is_synced (corrected (answer ezee b) b))) [
          | inr skip ↦ rw (read', skip) refl
          | inl again ↦ rw (read', again, key.1) (corrected_again (answer ezee b) b)
        ]
  ]

  pub step_eri : (b : Cached) → (step b).eri ≡ b.eri
  unfolding step
  step_eri b = elim (Bool-cases (is_synced b)) [
    | inr skip ↦ rw skip refl
    | inl read' ↦ rw read' (corrected_key (answer ezee b) b).0
  ]

update_where-one :
    {A : Type 0} (p : A → Bool) (f : A → A) (before : List A) (x : A) (after : List A)
    → p x ≡ true
    → All (λ y. p y ≡ false) before
    → All (λ y. p y ≡ false) after
    → update_where p f (before ++ x ∷ after) ≡ before ++ f x ∷ after
unfolding update_where
update_where-one p f [] x after hit none_before none_after =
    rw hit (ap (λ r. f x ∷ r) (skip after none_after))
  where
    skip : (ys : List _) → All (λ y. p y ≡ false) ys → update_where p f ys ≡ ys
    skip [] h = refl
    skip (y ∷ ys) h = rw h.0 (ap (λ r. y ∷ r) (skip ys h.1))
update_where-one p f (y ∷ before) x after hit none_before none_after =
    rw none_before.0
      (ap (λ r. y ∷ r) (update_where-one p f before x after hit none_before.1 none_after))

eri_eq_self : (e : Eri) → eri_eq e e ≡ true
eri_eq_self (tds a) = ==_self a
eri_eq_self (external c a) = rw (==_self c, ==_self a) refl

abbrev pub Apart : Cached → Cached → Type 0
Apart b c = eri_eq c.eri b.eri ≡ false

-- The lock requests that a row gives rise to.
abbrev pub lock_for : Fetched → Cached → List LockRequest
lock_for (tran st room) b =
    if arrives (status_drift (ezee_status_map st) b)
    then record {
      eri = b.eri;
      property_id = b.property_id;
      room_number = room_or room b.room_number;
    }
      ∷ []
    else []
lock_for failed b = []
lock_for not_found b = []
lock_for without_tran b = []

-- A row that was written asks for no lock, and has what the answer says.
pub lock_for_none : (a : Fetched) (b : Cached) → lock_for a (corrected a b) ≡ []
unfolding updated
lock_for_none failed b = refl
lock_for_none not_found b = refl
lock_for_none without_tran b = refl
lock_for_none (tran st room) b =
    rw (no_status_drift (ezee_status_map st) (room_drift room b) b) refl

-- The table with the row `b` between others, and no second row with its id.
module _ (b : Cached) (before after : List Cached) (apart_before : All (Apart b) before)
    (apart_after : All (Apart b) after) where
  wrote :
      (f : Cached → Cached) (s : Sync)
      → set_bookings
          (update_where (λ c. eri_eq c.eri b.eri) f)
          (record s { bookings = before ++ b ∷ after })
        ≡ (ok tt, record s { bookings = before ++ f b ∷ after })
  unfolding set_bookings
  wrote f s =
      ap (λ rows. (ok tt, record s { bookings = rows }))
        (update_where-one (λ c. eri_eq c.eri b.eri) f before b after (eri_eq_self b.eri)
          apart_before apart_after)

  write_lem :
      (o : Option Status) (r : Option ℕ) (s : Sync)
      → (if is_some o || is_some r
            then set_bookings
                (update_where (λ c. eri_eq c.eri b.eri) (λ c. new_room r (new_status o c)))
            else pure tt)
          (record s { bookings = before ++ b ∷ after })
        ≡ (ok tt, record s { bookings = before ++ new_room r (new_status o b) ∷ after })
  unfolding ◌>>=◌
  write_lem none none s = refl
  write_lem none (some r) s = wrote (new_room (some r)) s
  write_lem (some o) none s = wrote (new_status (some o)) s
  write_lem (some o) (some r) s = wrote (λ c. new_room (some r) (new_status (some o) c)) s

  pub correct_drift_lem :
      (st : EzeeStatus) (room : Option ℕ) (s : Sync)
      → correct_drift b st room (record s { bookings = before ++ b ∷ after }) ≡ (
        ok tt,
        record s {
          bookings = before ++ updated st room b ∷ after;
          lock_requests = s.lock_requests ++ lock_for (tran st room) b;
        },
      )
  unfolding correct_drift updated request_lock ◌>>=◌
  correct_drift_lem st room s = elim (Bool-cases (arrives (status_drift (ezee_status_map st) b))) [
    | inl yes' ↦ rw yes' (
        write_lem (status_drift (ezee_status_map st) b) (room_drift room b) (record s {
          lock_requests =
              s.lock_requests
              ++ record {
                eri = b.eri;
                property_id = b.property_id;
                room_number = room_or room b.room_number;
              }
                ∷ [];
        }))
    | inr no' ↦
        rw (no', append-nil s.lock_requests)
          (write_lem (status_drift (ezee_status_map st) b) (room_drift room b) s)
  ]
