-- ===== src/Payment/Captured.antt =====
-- A captured payment is never written again.
use vibehouse_backend.Common.{
  ℕ, Bool, false, Option, some, List, [], ◌∷◌, ◌++◌, ◌≡◌, ◌≢◌, refl, sym, ◌∙◌, ◌==◌, ==-eq,
  if◌then◌else◌, All, append-All, find, find-All, update_where, update_where-All, Option-cases,
  Bool-cases, inl, inr, arith,
}
use vibehouse_backend.Exec.{Error, gets, or_throw, ◌>>=◌}
use vibehouse_backend.Exec.Keeps.{Keeps, Keeps-if, Keeps-pure, keeps_rules}
use vibehouse_backend.Tables.{Payment, PaymentStatus, captured, is_captured}
use vibehouse_backend.World.{World, Action, Services, draw_uuid}
use vibehouse_backend.World.Frame.Payments.{Payments, Payments-set_payments, payments_rules}
use vibehouse_backend.Payment.{settled, settle, create_payment}
use vibehouse_backend.Payment.Open.{create_order, create_booking_payment}
use vibehouse_backend.Payment.Fulfil.{fulfil_order, fulfil_booking_order, fulfil_addon_order}
use vibehouse_backend.Payment.Failure.{fail_payment, handle_payment_failure, dev_simulate_fail}
use vibehouse_backend.Payment.Events.{
  Event, captured, verify_payment, handle_event, handle_webhook, dev_simulate_capture,
}

-- A payment with the id of `row` is `row` itself.
abbrev pub IsOnly : Payment → Payment → Type 0
IsOnly row p = p.id ≡ row.id → p ≡ row

abbrev has_id : Payment → Payment → Bool
has_id row p = p.id == row.id

-- The table holds `row`, and no other payment with its id.
abbrev pub Holds : Payment → List Payment → Type 0
Holds row rows = (find (has_id row) rows ≡ some row) × All (IsOnly row) rows

abbrev pub Recorded : Payment → World → Type 0
Recorded row = Payments (Holds row)

module _ (row : Payment) where
  settle-find :
      (id : ℕ) (rzp : Option ℕ) (s : PaymentStatus)
      → id ≢ row.id
      → (rows : List Payment)
      → find (has_id row) (update_where (λ p. p.id == id) (settled rzp s) rows)
        ≡ find (has_id row) rows
  unfolding find update_where
  settle-find id rzp s other [] = refl
  settle-find id rzp s other (p ∷ rows) = ground (arith, settle-find id rzp s other rows)

  settle-rows :
      (id : ℕ) (rzp : Option ℕ) (s : PaymentStatus)
      → id ≢ row.id
      → (rows : List Payment) → Holds row rows
      → Holds row (update_where (λ p. p.id == id) (settled rzp s) rows)
  settle-rows id rzp s other rows h = (
    settle-find id rzp s other rows ∙ h.0,
    update_where-All (IsOnly row) _ _ rows
        (λ p hit only same. absurd (other (sym (==-eq p.id id hit) ∙ same))) h.1,
  )

  settle-Recorded :
      (id : ℕ) (rzp : Option ℕ) (s : PaymentStatus)
      → id ≢ row.id
      → Keeps (Recorded row) (settle id rzp s)
  unfolding settle
  settle-Recorded id rzp s other = Payments-set_payments _ (settle-rows id rzp s other)

  insert-find :
      (p : Payment) (rows : List Payment)
      → find (has_id row) rows ≡ some row
      → find (has_id row) (rows ++ p ∷ []) ≡ some row
  unfolding find
  insert-find p [] e = absurd (cc)
  insert-find p (q ∷ rows) e = ground (arith, insert-find p rows)

  insert-rows :
      (p : Payment)
      → p.id ≢ row.id
      → (rows : List Payment) → Holds row rows
      → Holds row (rows ++ p ∷ [])
  insert-rows p other rows h = (
    insert-find p rows h.0,
    append-All (IsOnly row) rows (p ∷ []) h.1 (λ same. absurd (other same), tt),
  )

  create_payment-Recorded : (p : Payment) → p.id ≢ row.id → Keeps (Recorded row) (create_payment p)
  unfolding create_payment
  create_payment-Recorded p other =
      search (payments_rules, Payments-set_payments, insert-rows p other)

  -- A payment that was found and is not captured is another one.
  other_payment :
      (test : Payment → Bool) (w : World) {p : Payment}
      → row.status ≡ captured
      → Recorded row w
      → find test w.db.payments ≡ some p
      → is_captured p.status ≡ false
      → p.id ≢ row.id
  other_payment test w {p} done h found unpaid same =
      let is_row : p ≡ row = find-All (IsOnly row) test w.db.payments found h.holds.1 same in cc

  module _ {A : Type 0} (test : Payment → Bool) (e : Error) (done : row.status ≡ captured) where
    -- Look a payment up, answer if it is captured, and go on with it otherwise.
    look_up-Recorded :
        (early : Action A) (rest : Payment → Action A)
        → Keeps (Recorded row) early
        → ((p : Payment) → p.id ≢ row.id → Keeps (Recorded row) (rest p))
        → Keeps (Recorded row) (
            gets (λ w. find test w.db.payments) >>= λ o.
            or_throw o e >>= λ p. if is_captured p.status then early else rest p)
    unfolding ◌>>=◌
    look_up-Recorded early rest ke kr = record {
      after = λ w h. elim (Option-cases (find test w.db.payments)) [
        | inl missing ↦ rw missing h
        | inr (p, found) ↦ elim (Bool-cases (is_captured p.status)) [
          | inl yes' ↦ rw (found, yes') (ke.after w h)
          | inr unpaid ↦
              rw (found, unpaid) ((kr p (other_payment test w done h found unpaid)).after w h)
        ]
      ];
    }

module _ (env : Services) (row : Payment) where
  fulfil_booking_order-Recorded :
      (p : Payment) (rzp : Option ℕ)
      → p.id ≢ row.id
      → Keeps (Recorded row) (fulfil_booking_order env p rzp)
  unfolding fulfil_booking_order
  fulfil_booking_order-Recorded p rzp other =
      search (payments_rules, settle-Recorded row p.id _ _ other) depth 40

  fulfil_addon_order-Recorded :
      (p : Payment) (rzp : Option ℕ)
      → p.id ≢ row.id
      → Keeps (Recorded row) (fulfil_addon_order env p rzp)
  unfolding fulfil_addon_order
  fulfil_addon_order-Recorded p rzp other =
      search (payments_rules, settle-Recorded row p.id _ _ other) depth 40

  fail_payment-Recorded : (p : Payment) → p.id ≢ row.id → Keeps (Recorded row) (fail_payment env p)
  unfolding fail_payment
  fail_payment-Recorded p other =
      search (payments_rules, settle-Recorded row p.id _ _ other) depth 40

module _ (env : Services) (row : Payment) (done : row.status ≡ captured) where
  pub fulfil_order-Recorded :
      (id : ℕ) (rzp : Option ℕ) → Keeps (Recorded row) (fulfil_order env id rzp)
  unfolding fulfil_order
  fulfil_order-Recorded id rzp =
      look_up-Recorded row (λ p. p.id == id) _ done _ _ (search keeps_rules)
        λ p other. search (
          keeps_rules,
          fulfil_booking_order-Recorded env row p rzp other,
          fulfil_addon_order-Recorded env row p rzp other,
        )

  pub handle_payment_failure-Recorded :
      (order : ℕ) → Keeps (Recorded row) (handle_payment_failure env order)
  unfolding handle_payment_failure
  handle_payment_failure-Recorded order =
      look_up-Recorded row (λ p. p.razorpay_order_id == order) _ done _ _ (search keeps_rules)
        λ p other. Keeps-if _ _ _ (Keeps-pure _) (fail_payment-Recorded env row p other)

  ruleset outcome_rules = (payments_rules, fulfil_order-Recorded, handle_payment_failure-Recorded)

  pub verify_payment-Recorded :
      (guest order payment signature : ℕ)
      → Keeps (Recorded row) (verify_payment env guest order payment signature)
  unfolding verify_payment
  verify_payment-Recorded guest order payment signature = search outcome_rules depth 20

  handle_event-Recorded : (event : Event) → Keeps (Recorded row) (handle_event env event)
  unfolding handle_event
  handle_event-Recorded (Event.captured order payment) = search outcome_rules depth 20
  handle_event-Recorded (Event.failed order) = search outcome_rules depth 20
  handle_event-Recorded Event.unhandled = search outcome_rules depth 20

  pub handle_webhook-Recorded :
      (body signature : ℕ) (event : Event)
      → Keeps (Recorded row) (handle_webhook env body signature event)
  unfolding handle_webhook
  handle_webhook-Recorded body signature event = search (outcome_rules, handle_event-Recorded)

  pub dev_simulate_capture-Recorded :
      (order : ℕ) → Keeps (Recorded row) (dev_simulate_capture env order)
  unfolding dev_simulate_capture
  dev_simulate_capture-Recorded order = search outcome_rules depth 20

  pub dev_simulate_fail-Recorded : (order : ℕ) → Keeps (Recorded row) (dev_simulate_fail env order)
  unfolding dev_simulate_fail
  dev_simulate_fail-Recorded order = search outcome_rules depth 20

-- A new payment gets a uuid, which is not the id of `row`.
module _ (env : Services) (row : Payment) (fresh : (n : ℕ) → env.uuid n ≢ row.id) where
  draw-Recorded :
      {A : Type 0} (f : ℕ → Action A)
      → ((n : ℕ) → Keeps (Recorded row) (f (env.uuid n)))
      → Keeps (Recorded row) (draw_uuid env >>= f)
  unfolding draw_uuid ◌>>=◌
  draw-Recorded f kf = record { after = λ w h. (kf w.drawn).after _ (record { holds = h.holds }) }

  ruleset opening_rules = (draw-Recorded, payments_rules, create_payment-Recorded)

  pub create_order-Recorded :
      (guest_id eri : ℕ) → Keeps (Recorded row) (create_order env guest_id eri)
  unfolding create_order
  create_order-Recorded guest_id eri = search (opening_rules, fresh) depth 40

  pub create_booking_payment-Recorded :
      (guest_id eri total : ℕ) (order : Option ℕ)
      → Keeps (Recorded row) (create_booking_payment env guest_id eri total order)
  unfolding create_booking_payment
  create_booking_payment-Recorded guest_id eri total order = search (opening_rules, fresh) depth 40
