-- ===== src/Sync/Drift/Agrees.antt =====
-- eZee is the source of truth: what the rows say after a pass of `reconcileEzeeState`.
use vibehouse_backend.Common.{
  ℕ, ◌≡◌, refl, ap, sym, true, Option, none, some, List, [], ◌∷◌, All, map-All, holds_id, ==-eq,
  Bool-cases, inl, inr,
}
use mathlib.Core.Path.{subst}
use vibehouse_backend.Sync.{
  Status, pending_payment, confirmed, cancelled, checked_in, checked_out, no_show, status_eq,
  ezee_status_map, Cached, Sync, Fetched, failed, not_found, without_tran, tran,
}
use vibehouse_backend.Sync.Drift.{
  is_synced, status_drift, room_drift, updated, answer, reconcile_ezee_state,
}
use vibehouse_backend.Sync.Drift.Passes.{
  corrected, step, corrected_key, no_status_drift, no_room_drift,
}
use vibehouse_backend.Sync.Drift.Twice.{Distinct, reconcile_ezee_state_lem}

status_eq_lem : (a b : Status) → status_eq a b ≡ true → a ≡ b
status_eq_lem pending_payment pending_payment e = refl
status_eq_lem pending_payment confirmed e = cc
status_eq_lem pending_payment cancelled e = cc
status_eq_lem pending_payment checked_in e = cc
status_eq_lem pending_payment checked_out e = cc
status_eq_lem pending_payment no_show e = cc
status_eq_lem confirmed pending_payment e = cc
status_eq_lem confirmed confirmed e = refl
status_eq_lem confirmed cancelled e = cc
status_eq_lem confirmed checked_in e = cc
status_eq_lem confirmed checked_out e = cc
status_eq_lem confirmed no_show e = cc
status_eq_lem cancelled pending_payment e = cc
status_eq_lem cancelled confirmed e = cc
status_eq_lem cancelled cancelled e = refl
status_eq_lem cancelled checked_in e = cc
status_eq_lem cancelled checked_out e = cc
status_eq_lem cancelled no_show e = cc
status_eq_lem checked_in pending_payment e = cc
status_eq_lem checked_in confirmed e = cc
status_eq_lem checked_in cancelled e = cc
status_eq_lem checked_in checked_in e = refl
status_eq_lem checked_in checked_out e = cc
status_eq_lem checked_in no_show e = cc
status_eq_lem checked_out pending_payment e = cc
status_eq_lem checked_out confirmed e = cc
status_eq_lem checked_out cancelled e = cc
status_eq_lem checked_out checked_in e = cc
status_eq_lem checked_out checked_out e = refl
status_eq_lem checked_out no_show e = cc
status_eq_lem no_show pending_payment e = cc
status_eq_lem no_show confirmed e = cc
status_eq_lem no_show cancelled e = cc
status_eq_lem no_show checked_in e = cc
status_eq_lem no_show checked_out e = cc
status_eq_lem no_show no_show e = refl

-- The row has the status that eZee's stands for, and eZee's room.
abbrev pub Agrees : Fetched → Cached → Type 0
Agrees (tran st room) b =
    ((s : Status) → ezee_status_map st ≡ some s → b.status ≡ s)
    × ((r : ℕ) → room ≡ some r → b.room_number ≡ some r)
Agrees failed b = Unit
Agrees not_found b = Unit
Agrees without_tran b = Unit

no_drift_status : (s : Status) (b : Cached) → status_drift (some s) b ≡ none → b.status ≡ s
no_drift_status s b e = elim (Bool-cases (status_eq s b.status)) [
  | inl same ↦ sym (status_eq_lem s b.status same)
  | inr other ↦ absurd (cc (rw other at e))
]

holds_id_lem : (o : Option ℕ) (r : ℕ) → holds_id o r ≡ true → o ≡ some r
holds_id_lem none r e = cc
holds_id_lem (some m) r e = ap (λ x. some x) (==-eq m r e)

no_drift_room : (r : ℕ) (b : Cached) → room_drift (some r) b ≡ none → b.room_number ≡ some r
no_drift_room r b e = elim (Bool-cases (holds_id b.room_number r)) [
  | inl same ↦ holds_id_lem b.room_number r same
  | inr other ↦ absurd (cc (rw other at e))
]

corrected-Agrees : (a : Fetched) (b : Cached) → Agrees a (corrected a b)
unfolding updated
corrected-Agrees failed b = tt
corrected-Agrees not_found b = tt
corrected-Agrees without_tran b = tt
corrected-Agrees (tran st room) b = (
  (λ s e. no_drift_status s (updated st room b) (
      subst (λ o. status_drift o (updated st room b) ≡ none) e
        (no_status_drift (ezee_status_map st) (room_drift room b) b))),
  λ r e. no_drift_room r (updated st room b) (
      subst (λ o. room_drift o (updated st room b) ≡ none) e
        (no_room_drift (status_drift (ezee_status_map st) b) room b)),
)

module _ (ezee : ℕ → ℕ → Fetched) where
  abbrev pub InStep : Cached → Type 0
  InStep b = is_synced b ≡ true → Agrees (answer ezee b) b

  step-InStep : (b : Cached) → InStep (step ezee b)
  unfolding step
  step-InStep b = elim (Bool-cases (is_synced b)) [
    | inr skip ↦ rw skip (λ current. absurd (cc))
    | inl read' ↦ rw read' (λ current.
        subst (λ a. Agrees a (corrected (answer ezee b) b))
          (sym (corrected_key ezee (answer ezee b) b).1) (corrected-Agrees (answer ezee b) b))
  ]

  rows-InStep : (rows : List Cached) → All (λ b. InStep (step ezee b)) rows
  rows-InStep [] = tt
  rows-InStep (b ∷ rows) = (step-InStep b, rows-InStep rows)

  -- After a pass every row that is still an active synced booking has the status and the room that
  -- eZee answered for it, where it answered with a known status or a room.
  pub reconcile_ezee_state-InStep :
      (s : Sync) → Distinct s.bookings → All InStep (reconcile_ezee_state ezee s).1.bookings
  reconcile_ezee_state-InStep s d =
      rw (reconcile_ezee_state_lem ezee s d)
        (map-All InStep (step ezee) s.bookings (rows-InStep s.bookings))
