-- ===== src/Exec.antt =====
-- A request handler: it reads and writes a state, and it may throw. What was written before a
-- throw stays written, so the state comes back beside the error too; `transaction` undoes it.
pub mod Keeps
pub mod Leads
pub mod Runs
pub mod Ends
use vibehouse_backend.Common.{Bool, true, false, Option, none, some, List, [], ◌∷◌, if◌then◌else◌}

-- The HTTP exceptions that the handlers throw, one constructor for each message, and the refusal
-- of a write by the database.
pub data Error : Type 0 where
  booking_not_found property_not_found product_not_found payment_not_found order_not_found : Error
  room_type_not_found inventory_not_found checkout_not_found guest_not_found item_not_found : Error
  role_not_found admin_not_found : Error
  forbidden not_your_cart : Error
  conflict bad_request insufficient_stock cart_empty already_paid already_checked_out : Error
  bad_signature not_this_guest wrong_category already_returned : Error
  unauthorized invalid_otp otp_not_found wait_before_resend google_account mail_error : Error
  slot_not_found slot_locked no_consent under_age kyc_not_found : Error
  check_violation unique_violation gateway_error : Error
  ezee_error no_room_selections not_synced no_ezee_room_type : Error
  quote_not_found quote_expired draft_not_found addon_unknown addon_unavailable : Error

pub data Result {ℓ} (A : Type ℓ) : Type ℓ where
  ok : A → Result A
  err : Error → Result A

abbrev pub Exec {ℓ κ} : Type ℓ → Type κ → Type (ℓ ⊔ κ)
Exec S A = S → Result A × S

module _ {ℓ} {S : Type ℓ} where
  pub modify : (S → S) → Exec S (Unit {0})
  modify write now = (ok tt, write now)

  -- `if (c) throw …`
  pub throw_if : Bool → Error → Exec S (Unit {0})
  throw_if false _ now = (ok tt, now)
  throw_if true e now = (err e, now)

module _ {ℓ κ} {S : Type ℓ} {A : Type κ} where
  -- A function that throws, called from a handler.
  pub lift : Result A → Exec S A
  lift result now = (result, now)

  -- `const x = await …; if (!x) throw …`
  pub or_throw : Option A → Error → Exec S A
  or_throw (some row) _ now = (ok row, now)
  or_throw none e now = (err e, now)

  pub throw : Error → Exec S A
  throw e now = (err e, now)

  pub gets : (S → A) → Exec S A
  gets read now = (ok (read now), now)

  pub pure : A → Exec S A
  pure value now = (ok value, now)

module _ {ℓ κ ι} {S : Type ℓ} {A : Type κ} {B : Type ι} where
  -- What follows a call: nothing, when the call threw.
  abbrev pub continue : Result A → (A → Exec S B) → Exec S B
  continue (err e) _ now = (err e, now)
  continue (ok value) next now = next value now

  -- `if (x) { next(x) } else { other }`, for an `x` that may be null.
  abbrev pub if_found : Option A → (A → Exec S B) → Exec S B → Exec S B
  if_found none _ other = other
  if_found (some row) next _ = next row

  infixl 10 ◌>>=◌ ◌>>◌
  -- Opening this opens the other actions too.
  unfoldable pub ◌>>=◌ : Exec S A → (A → Exec S B) → Exec S B
  unfolding modify throw_if lift or_throw throw gets pure
  ◌>>=◌ act next start = let (result, between) = act start in continue result next between

  abbrev pub ◌>>◌ : Exec S A → Exec S B → Exec S B
  act >> other = act >>= λ _. other

module _ {ℓ κ} {S : Type ℓ} {A : Type κ} where
  -- `for (const row of rows) await body(row)`
  unfoldable pub for_each : List A → (A → Exec S (Unit {0})) → Exec S (Unit {0})
  for_each [] body now = (ok tt, now)
  for_each (row ∷ rows) body now = (body row >>= λ _. for_each rows body) now
