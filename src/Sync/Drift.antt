-- ===== src/Sync/Drift.antt =====
-- `reconcileEzeeState`, and `reconcileUnsyncedBookings` before it.
pub mod Passes
pub mod Twice
pub mod Agrees
use vibehouse_backend.Common.{
  is_some, ℕ, Bool, true, false, ◌&&◌, ◌||◌, not, Option, none, some, List, [], ◌∷◌, ◌++◌, ◌==◌,
  holds_id, where_, update_where, if◌then◌else◌,
}
use vibehouse_backend.Exec.{ok, pure, gets, for_each, if_found, ◌>>=◌, ◌>>◌}
use vibehouse_backend.Sync.{
  Eri, tds, external, eri_eq, Status, confirmed, cancelled, checked_in, checked_out, no_show,
  pending_payment, status_eq, EzeeStatus, ezee_status_map, Cached, LockRequest, Sync, Act, Fetched,
  failed, not_found, without_tran, tran, set_bookings, request_lock,
}

abbrev pub is_current : Status → Bool
is_current confirmed = true
is_current checked_in = true
is_current _ = false

-- The rows that `reconcileEzeeState` reads.
abbrev pub is_synced : Cached → Bool
is_synced b = is_current b.status && b.is_active && is_some b.reservation_no

-- `ezeeStatus && ezeeStatus !== booking.status`
abbrev pub status_drift : Option Status → Cached → Option Status
status_drift none b = none
status_drift (some s) b = if status_eq s b.status then none else some s

-- `ezeeRoomName && ezeeRoomName !== booking.room_number`
abbrev pub room_drift : Option ℕ → Cached → Option ℕ
room_drift none b = none
room_drift (some r) b = if holds_id b.room_number r then none else some r

-- The statuses that end a booking.
abbrev pub ends : Status → Bool
ends cancelled = true
ends no_show = true
ends checked_out = true
ends _ = false

-- `updates.status` and `updates.is_active`
abbrev pub new_status : Option Status → Cached → Cached
new_status none b = b
new_status (some s) b = record b { status = s; is_active = b.is_active && not (ends s) }

abbrev pub new_room : Option ℕ → Cached → Cached
new_room none b = b
new_room (some r) b = record b { room_number = some r }

-- `ezeeRoomName ?? booking.room_number`
abbrev pub room_or : Option ℕ → Option ℕ → Option ℕ
room_or none old = old
room_or (some r) old = some r

abbrev pub arrives : Option Status → Bool
arrives (some checked_in) = true
arrives _ = false

-- What is written over the row `b`; both drifts are of the row as it was read.
unfoldable pub updated : EzeeStatus → Option ℕ → Cached → Cached
updated st room b =
    new_room (room_drift room b) (new_status (status_drift (ezee_status_map st) b) b)

unfoldable pub correct_drift : Cached → EzeeStatus → Option ℕ → Act (Unit {0})
unfolding ◌>>=◌
correct_drift b st room = do
  let status = status_drift (ezee_status_map st) b
  let room' = room_drift room b
  if arrives status
      then request_lock (record {
        eri = b.eri;
        property_id = b.property_id;
        room_number = room_or room b.room_number;
      })
      else pure tt
  if is_some status || is_some room'
      then set_bookings
          (update_where (λ c. eri_eq c.eri b.eri) (λ c. new_room room' (new_status status c)))
      else pure tt

-- The `try` block for a row, after the answer about it.
unfoldable pub react : Fetched → Cached → Act (Unit {0})
unfolding ◌>>=◌
react failed b = pure tt
react not_found b = pure tt
react without_tran b = pure tt
react (tran st room) b = correct_drift b st room

module _ (ezee : ℕ → ℕ → Fetched) where
  -- A row without a number is not among them; `failed` is the `catch`.
  abbrev pub ask : ℕ → Option ℕ → Fetched
  ask property none = not_found
  ask property (some number) = ezee property number

  abbrev pub answer : Cached → Fetched
  answer b = ask b.property_id b.reservation_no

  abbrev pub reconcile_one : Cached → Act (Unit {0})
  reconcile_one b = react (answer b) b

  unfoldable pub reconcile_ezee_state : Act (Unit {0})
  unfolding ◌>>=◌
  reconcile_ezee_state = do
    rows ← gets (λ s. where_ is_synced s.bookings)
    for_each rows reconcile_one

-- `startsWith: 'TDS-'`
abbrev pub is_own : Eri → Bool
is_own (tds n) = true
is_own (external c n) = false

abbrev pub is_unsynced : Cached → Bool
is_unsynced b =
    status_eq b.status confirmed && b.is_active && not (is_some b.reservation_no) && is_own b.eri

unfoldable pub send_insert : Eri → ℕ → Act (Unit {0})
send_insert eri amount s = (ok tt, record s { inserts = s.inserts ++ (eri, amount) ∷ [] })

unfoldable pub reconcile_unsynced_bookings : Act (Unit {0})
unfolding ◌>>=◌
reconcile_unsynced_bookings = do
  rows ← gets (λ s. where_ is_unsynced s.bookings)
  for_each rows λ b. if_found b.paid (send_insert b.eri) (pure tt)
