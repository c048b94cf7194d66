-- ===== src/Payment/Unpaid.antt =====
-- A payment of one Razorpay order, under what is reported about other orders, or about failures.
use vibehouse_backend.Common.{
  ℕ, ◌≡◌, ◌≢◌, refl, sym, ◌∙◌, false, Option, List, [], ◌∷◌, ◌++◌, ◌==◌, ==-eq, find, find-All,
  find-true, update_where-All, All, append-All, Bool, true, Option-cases, inl, inr,
}
use vibehouse_backend.Exec.{Error, gets, or_throw, if_found, ◌>>=◌}
use vibehouse_backend.Exec.Keeps.{Keeps, Keeps-if, Keeps-pure}
use vibehouse_backend.Tables.{Payment, PaymentStatus, failed, is_captured}
use vibehouse_backend.World.{World, Action, Services, draw_uuid}
use vibehouse_backend.World.Frame.Payments.{Payments, Payments-set_payments, payments_rules}
use vibehouse_backend.Payment.{settled, settle, create_payment}
use vibehouse_backend.Payment.Open.{create_order, create_booking_payment}
use vibehouse_backend.Payment.Fulfil.{fulfil_order, fulfil_booking_order, fulfil_addon_order}
use vibehouse_backend.Payment.Failure.{fail_payment, handle_payment_failure, dev_simulate_fail}

-- The payment with that id is one of the Razorpay order, and is not captured.
abbrev pub IsUnpaid : (id order : ℕ) → Payment → Type 0
IsUnpaid id order p = p.id ≡ id → (p.razorpay_order_id ≡ order) × (is_captured p.status ≡ false)

abbrev pub Unpaid : (id order : ℕ) → World → Type 0
Unpaid id order = Payments (All (IsUnpaid id order))

module _ (id order : ℕ) where
  settle_other-Unpaid :
      (other : ℕ) (rzp : Option ℕ) (status : PaymentStatus)
      → other ≢ id
      → Keeps (Unpaid id order) (settle other rzp status)
  unfolding settle
  settle_other-Unpaid other rzp status apart = Payments-set_payments _ λ rows h.
      update_where-All (IsUnpaid id order) (λ p. p.id == other) (settled rzp status) rows
        (λ p hit unpaid same. absurd (apart (sym (==-eq p.id other hit) ∙ same))) h

  settle_failed-Unpaid :
      (other : ℕ) (rzp : Option ℕ) → Keeps (Unpaid id order) (settle other rzp failed)
  unfolding settle
  settle_failed-Unpaid other rzp = Payments-set_payments _ λ rows h.
      update_where-All (IsUnpaid id order) (λ p. p.id == other) (settled rzp failed) rows
        (λ p hit unpaid same. ((unpaid same).0, refl)) h

  insert-rows :
      (p : Payment)
      → p.id ≢ id
      → (rows : List Payment) → All (IsUnpaid id order) rows
      → All (IsUnpaid id order) (rows ++ p ∷ [])
  insert-rows p other rows h =
      append-All (IsUnpaid id order) rows (p ∷ []) h (λ same. absurd (other same), tt)

  create_payment-Unpaid : (p : Payment) → p.id ≢ id → Keeps (Unpaid id order) (create_payment p)
  unfolding create_payment
  create_payment-Unpaid p other =
      search (payments_rules, Payments-set_payments, insert-rows p other)

  -- A payment that a test finds, and which the test tells from the one with the id.
  pub look_up-Unpaid :
      {A : Type 0} (test : Payment → Bool) (e : Error) (rest : Payment → Action A)
      → ((p : Payment) → test p ≡ true → IsUnpaid id order p → p.id ≢ id)
      → ((p : Payment) → p.id ≢ id → Keeps (Unpaid id order) (rest p))
      → Keeps (Unpaid id order) (gets (λ w. find test w.db.payments) >>= λ o. or_throw o e >>= rest)
  unfolding ◌>>=◌
  look_up-Unpaid test e rest apart kept = record {
    after = λ w h. elim (Option-cases (find test w.db.payments)) [
      | inl missing ↦ rw missing h
      | inr (p, found) ↦
          let hit = find-true test w.db.payments found in
          let own = find-All (IsUnpaid id order) test w.db.payments found h.holds in
          rw found ((kept p (apart p hit own)).after w h)
    ];
  }

  pub found-Unpaid :
      {A : Type 0} (test : Payment → Bool) (rest : Payment → Action A) (missing : Action A)
      → ((p : Payment) → test p ≡ true → IsUnpaid id order p → p.id ≢ id)
      → ((p : Payment) → p.id ≢ id → Keeps (Unpaid id order) (rest p))
      → Keeps (Unpaid id order) missing
      → Keeps
          (Unpaid id order)
          (gets (λ w. find test w.db.payments) >>= λ o. if_found o rest missing)
  unfolding ◌>>=◌
  found-Unpaid test rest missing apart kept kept_none = record {
    after = λ w h. elim (Option-cases (find test w.db.payments)) [
      | inl absent ↦ rw absent (kept_none.after w h)
      | inr (p, found) ↦
          let hit = find-true test w.db.payments found in
          let own = find-All (IsUnpaid id order) test w.db.payments found h.holds in
          rw found ((kept p (apart p hit own)).after w h)
    ];
  }

  -- The payment of another Razorpay order is another one.
  pub other_order :
      (o : ℕ)
      → o ≢ order
      → (p : Payment) → (p.razorpay_order_id == o) ≡ true
      → IsUnpaid id order p
      → p.id ≢ id
  other_order o differs p hit unpaid same =
      differs (sym (==-eq p.razorpay_order_id o hit) ∙ (unpaid same).0)

  module _ (env : Services) where
    fulfil_booking_order-Unpaid :
        (p : Payment) (rzp : Option ℕ)
        → p.id ≢ id
        → Keeps (Unpaid id order) (fulfil_booking_order env p rzp)
    unfolding fulfil_booking_order
    fulfil_booking_order-Unpaid p rzp other =
        search (payments_rules, settle_other-Unpaid p.id _ _ other) depth 40

    fulfil_addon_order-Unpaid :
        (p : Payment) (rzp : Option ℕ)
        → p.id ≢ id
        → Keeps (Unpaid id order) (fulfil_addon_order env p rzp)
    unfolding fulfil_addon_order
    fulfil_addon_order-Unpaid p rzp other =
        search (payments_rules, settle_other-Unpaid p.id _ _ other) depth 40

    pub fulfil_order-Unpaid :
        (other : ℕ) (rzp : Option ℕ)
        → other ≢ id
        → Keeps (Unpaid id order) (fulfil_order env other rzp)
    unfolding fulfil_order
    fulfil_order-Unpaid other rzp apart =
        look_up-Unpaid (λ p. p.id == other) _ _
          (λ p hit unpaid same. apart (sym (==-eq p.id other hit) ∙ same))
          λ p differs. Keeps-if _ _ _ (Keeps-pure _) (
            Keeps-if _ _ _ (fulfil_booking_order-Unpaid p rzp differs)
              (fulfil_addon_order-Unpaid p rzp differs))

    pub handle_payment_failure-Unpaid :
        (o : ℕ) → Keeps (Unpaid id order) (handle_payment_failure env o)
    unfolding handle_payment_failure fail_payment
    handle_payment_failure-Unpaid o = search (payments_rules, settle_failed-Unpaid) depth 60

    pub dev_simulate_fail-Unpaid : (o : ℕ) → Keeps (Unpaid id order) (dev_simulate_fail env o)
    unfolding dev_simulate_fail
    dev_simulate_fail-Unpaid o = search (payments_rules, handle_payment_failure-Unpaid) depth 20

    -- A new payment gets a uuid, which is not the id.
    module _ (fresh : (n : ℕ) → env.uuid n ≢ id) where
      pub draw-Unpaid :
          {A : Type 0} (f : ℕ → Action A)
          → ((n : ℕ) → Keeps (Unpaid id order) (f (env.uuid n)))
          → Keeps (Unpaid id order) (draw_uuid env >>= f)
      unfolding draw_uuid ◌>>=◌
      draw-Unpaid f kf = record { after = λ w h. (kf w.drawn).after _ (record { holds = h.holds }) }

      ruleset opening_rules = (draw-Unpaid, payments_rules, create_payment-Unpaid)

      pub create_order-Unpaid :
          (guest_id eri : ℕ) → Keeps (Unpaid id order) (create_order env guest_id eri)
      unfolding create_order
      create_order-Unpaid guest_id eri = search (opening_rules, fresh) depth 40

      pub create_booking_payment-Unpaid :
          (guest_id eri total : ℕ) (o : Option ℕ)
          → Keeps (Unpaid id order) (create_booking_payment env guest_id eri total o)
      unfolding create_booking_payment
      create_booking_payment-Unpaid guest_id eri total o = search (opening_rules, fresh) depth 40
