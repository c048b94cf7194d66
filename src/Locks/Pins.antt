-- ===== src/Locks/Pins.antt =====
-- A booking has at most one active pin, however often it is asked for.
use vibehouse_backend.Common.{
  ℕ, ◌+◌, ◌≤◌, ◌≡◌, refl, true, Option, none, some, List, [], ◌∷◌, ◌++◌, ◌==◌, find, if◌then◌else◌,
  Bool-cases, Option-cases, inl, inr, ==-eq, arith,
}
use vibehouse_backend.Exec.{gets, ◌>>=◌}
use vibehouse_backend.Exec.Keeps.{Keeps, keeps_rules}
use vibehouse_backend.Exec.Leads.{Leads, Leads-first, Leads-then}
use vibehouse_backend.Locks.{
  LockPin, LockDevice, Locks, MyGate, ProvisionRequest, is_live_pin, contact_of, device_of, new_pin,
  add_pin, mail_pin, count_call, authenticate, create_passcode, provision_room, provision_stay,
  provision_lock_access,
}

unfoldable serve_locks : MyGate → List ProvisionRequest → Locks → Locks
serve_locks mygate [] s = s
serve_locks mygate (r ∷ rs) s = serve_locks mygate rs (provision_lock_access mygate r s).1

module _ (eri : ℕ) where
  abbrev live_pins : List LockPin → ℕ
  live_pins [] = 0
  live_pins (p ∷ ps) = (if is_live_pin eri p then 1 else 0) + live_pins ps

  live_pins-append :
      (ps : List LockPin) (p : LockPin)
      → live_pins (ps ++ p ∷ []) ≡ live_pins ps + live_pins (p ∷ [])
  live_pins-append [] p = ground arith
  live_pins-append (q ∷ ps) p = let ih = live_pins-append ps p in ground arith

  none_live : (ps : List LockPin) → find (is_live_pin eri) ps ≡ none → live_pins ps ≡ 0
  unfolding find
  none_live [] e = refl
  none_live (p ∷ ps) e = elim (Bool-cases (is_live_pin eri p)) [
    | inl hit ↦ absurd (cc (rw hit at e))
    | inr miss ↦ rw miss (let ih = none_live ps (rw miss at e) in omega arith)
  ]

  abbrev OnePin : Locks → Type 0
  OnePin s = live_pins s.pins ≤ 1

  -- The booking that is asked for has no pin yet, when it is the one that is counted.
  abbrev Ready : ℕ → Locks → Type 0
  Ready own s = OnePin s × ((own == eri) ≡ true → live_pins s.pins ≡ 0)

  Leads-add_pin : (p : LockPin) → Leads (Ready p.eri) OnePin (add_pin p)
  unfolding add_pin
  Leads-add_pin p = record {
    after = λ s (held, none').
        let count = live_pins-append s.pins p in
        elim (Bool-cases (p.eri == eri)) [
          | inl hit ↦ let zero' = none' hit in ground arith
          | inr miss ↦ ground arith
        ];
  }

  Keeps-mail_pin : (to : Option ℕ) (pin : ℕ) → Keeps OnePin (mail_pin to pin)
  unfolding mail_pin
  Keeps-mail_pin none pin = record { after = λ s held. held }
  Keeps-mail_pin (some to) pin = record { after = λ s held. held }

  module _ (mygate : MyGate) where
    Ready-count_call : (own : ℕ) → Keeps (Ready own) count_call
    unfolding count_call
    Ready-count_call own = record { after = λ s held. held }

    Ready-authenticate : (own property : ℕ) → Keeps (Ready own) (authenticate mygate property)
    unfolding authenticate
    Ready-authenticate own property = search (keeps_rules, Ready-count_call) depth 40

    Ready-create_passcode :
        (own : ℕ) (d : LockDevice) → Keeps (Ready own) (create_passcode mygate d)
    unfolding create_passcode
    Ready-create_passcode own d = search (keeps_rules, Ready-count_call) depth 40

    Leads-provision_room :
        (r : ProvisionRequest) (room checkin checkout : ℕ) (d : LockDevice)
        → Leads (Ready r.eri) OnePin (provision_room mygate r room checkin checkout d)
    unfolding provision_room
    Leads-provision_room r room checkin checkout d =
        Leads-first (gets (contact_of r.eri)) _ (λ s h. h.0) (search keeps_rules)
          λ who.
            Leads-first (authenticate mygate r.property_id) _ (λ s h. h.0)
              (Ready-authenticate r.eri r.property_id)
              λ u.
                Leads-first (create_passcode mygate d) _ (λ s h. h.0)
                  (Ready-create_passcode r.eri d)
                  λ pin.
                    let p = new_pin r room checkin checkout d who.0 pin in
                    Leads-then (add_pin p) _ (Leads-add_pin p) λ u. Keeps-mail_pin who.1 pin

    provision_stay-OnePin :
        (r : ProvisionRequest) (room checkin checkout : ℕ)
        → Keeps OnePin (provision_stay mygate r room checkin checkout)
    unfolding provision_stay ◌>>=◌
    provision_stay-OnePin r room checkin checkout = record {
      after = λ s held. elim (Option-cases (find (is_live_pin r.eri) s.pins)) [
        | inr (p, there) ↦ rw there held
        | inl new ↦ elim (Option-cases (device_of r.property_id room s)) [
          | inl no' ↦ rw (new, no') held
          | inr (d, found) ↦
              simp (new, found)
                ((Leads-provision_room r room checkin checkout d).after s
                  (held, λ own. none_live s.pins (rw (==-eq r.eri eri own) at new)))
        ]
      ];
    }

    provision_lock_access-OnePin :
        (r : ProvisionRequest) → Keeps OnePin (provision_lock_access mygate r)
    unfolding provision_lock_access
    provision_lock_access-OnePin r = search (keeps_rules, provision_stay-OnePin) depth 40

    -- Through any requests, one after another, a booking that had at most one active pin has at most
    -- one.
    serve_locks-OnePin :
        (rs : List ProvisionRequest) (s : Locks)
        → live_pins s.pins ≤ 1
        → live_pins (serve_locks mygate rs s).pins ≤ 1
    unfolding serve_locks
    serve_locks-OnePin [] s held = held
    serve_locks-OnePin (r ∷ rs) s held =
        serve_locks-OnePin rs (provision_lock_access mygate r s).1
          ((provision_lock_access-OnePin r).after s held)
