-- ===== src/Locks.antt =====
-- The room locks: `provisionLockAccess` (src/mygate/mygate.service.ts), which the reconciliation
-- asks for when a guest has arrived. What MyGate answers is a parameter, by the number of the call.
pub mod Pins
use vibehouse_backend.Common.{
  ℕ, suc, ◌+◌, Bool, true, false, ◌&&◌, Option, none, some, List, [], ◌∷◌, ◌++◌, ◌==◌, find,
  if◌then◌else◌,
}
use vibehouse_backend.Exec.{
  Exec, ok, pure, gets, or_throw, throw_if, if_found, ◌>>=◌, ◌>>◌, gateway_error,
}

-- smart_lock_access; a guest that is not known is 'unknown'.
pub record LockPin : Type 0 where
  pub eri : ℕ
  pub guest_id : Option ℕ
  pub device_id : ℕ
  pub room_number : ℕ
  pub mygate_pin : ℕ
  pub is_active : Bool
  pub valid_from : ℕ
  pub valid_until : ℕ

pub record LockDevice : Type 0 where
  pub id : ℕ
  pub property_id : ℕ
  pub room_number : ℕ
  pub is_active : Bool
  pub mygate_room_id : ℕ

-- booking_guest_access, joined with the guest.
pub record LockGuest : Type 0 where
  pub eri : ℕ
  pub is_primary : Bool
  pub is_approved : Bool
  pub guest_id : ℕ
  pub email : Option ℕ

pub record LockBooking : Type 0 where
  pub eri : ℕ
  pub guest_id : Option ℕ
  pub booker_email : Option ℕ

-- `sendCheckinEmail`: to whom, and the pin.
pub record Locks : Type 0 where
  pub pins : List LockPin
  pub devices : List LockDevice
  pub guests : List LockGuest
  pub bookings : List LockBooking
  pub mails : List (ℕ × ℕ)
  pub calls : ℕ

pub record MyGate : Type 0 where
  pub authenticates : (property_id call : ℕ) → Bool
  pub passcode : (mygate_room_id call : ℕ) → Option ℕ

pub record ProvisionRequest : Type 0 where
  pub eri : ℕ
  pub property_id : ℕ
  pub room_number : Option ℕ
  pub checkin : Option ℕ
  pub checkout : Option ℕ

abbrev pub LockAct {κ} : Type κ → Type κ
LockAct A = Exec Locks A

abbrev pub is_live_pin : ℕ → LockPin → Bool
is_live_pin eri p = p.eri == eri && p.is_active

abbrev pub device_of : (property room : ℕ) → Locks → Option LockDevice
device_of property room s =
    find (λ d. d.property_id == property && d.room_number == room && d.is_active) s.devices

-- The guest's id and address: of the primary guest, else of the booking.
abbrev pub of_booking : Option LockBooking → Option ℕ × Option ℕ
of_booking none = (none, none)
of_booking (some b) = (b.guest_id, b.booker_email)

abbrev pub contact : Option LockGuest → Option LockBooking → Option ℕ × Option ℕ
contact none b = of_booking b
contact (some g) b = (some g.guest_id, g.email)

abbrev pub contact_of : ℕ → Locks → Option ℕ × Option ℕ
contact_of eri s =
    contact (find (λ g. g.eri == eri && g.is_primary && g.is_approved) s.guests)
      (find (λ b. b.eri == eri) s.bookings)

unfoldable pub add_pin : LockPin → LockAct (Unit {0})
add_pin p s = (ok tt, record s { pins = s.pins ++ p ∷ [] })

-- The mail's own failure is only logged.
unfoldable pub mail_pin : Option ℕ → ℕ → LockAct (Unit {0})
mail_pin none pin s = (ok tt, s)
mail_pin (some to) pin s = (ok tt, record s { mails = s.mails ++ (to, pin) ∷ [] })

abbrev pub new_pin :
    ProvisionRequest → (room checkin checkout : ℕ) → LockDevice → Option ℕ → ℕ → LockPin
new_pin r room checkin checkout d guest pin = record {
  eri = r.eri;
  guest_id = guest;
  device_id = d.id;
  room_number = room;
  mygate_pin = pin;
  is_active = true;
  valid_from = checkin;
  valid_until = checkout;
}

unfoldable pub count_call : LockAct (Unit {0})
count_call s = (ok tt, record s { calls = suc s.calls })

module _ (mygate : MyGate) where
  unfoldable pub authenticate : ℕ → LockAct (Unit {0})
  unfolding ◌>>=◌
  authenticate property = do
    accepted ← gets (λ s. mygate.authenticates property s.calls)
    count_call
    throw_if (if accepted then false else true) gateway_error

  unfoldable pub create_passcode : LockDevice → LockAct ℕ
  unfolding ◌>>=◌
  create_passcode d = do
    answer ← gets (λ s. mygate.passcode d.mygate_room_id s.calls)
    count_call
    or_throw answer gateway_error

  unfoldable pub provision_room :
      ProvisionRequest → (room checkin checkout : ℕ) → LockDevice → LockAct (Unit {0})
  unfolding ◌>>=◌
  provision_room r room checkin checkout d = do
    who ← gets (contact_of r.eri)
    authenticate r.property_id
    pin ← create_passcode d
    add_pin (new_pin r room checkin checkout d who.0 pin)
    mail_pin who.1 pin

  -- Once the room and the dates are there.
  unfoldable pub provision_stay :
      ProvisionRequest → (room checkin checkout : ℕ) → LockAct (Unit {0})
  unfolding ◌>>=◌
  provision_stay r room checkin checkout = do
    existing ← gets (λ s. find (is_live_pin r.eri) s.pins)
    if_found existing (λ p. pure tt)
        do
          device ← gets (device_of r.property_id room)
          if_found device (provision_room r room checkin checkout) (pure tt)

  unfoldable pub provision_lock_access : ProvisionRequest → LockAct (Unit {0})
  provision_lock_access r =
      if_found r.room_number
        (λ room.
          if_found r.checkin
            (λ checkin. if_found r.checkout (provision_stay r room checkin) (pure tt)) (pure tt))
        (pure tt)
