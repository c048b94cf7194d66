-- ===== src/Colive/Requests.antt =====
-- The requests about long stays, and what is kept by all of them when the writes to the drafts keep
-- it.
use vibehouse_backend.Common.{
  ℕ, ◌+◌, ◌≡◌, ◌≢◌, refl, sym, ◌∙◌, true, false, Option, some, List, [], ◌∷◌, ◌++◌, ◌==◌, holds_id,
  find, update_where, Bool-cases, Option-cases, inl, inr,
}
use vibehouse_backend.Exec.{ok, pure, gets, or_throw, gateway_error, ◌>>=◌, ◌>>◌}
use vibehouse_backend.Exec.Keeps.{
  Keeps, keeps_rules, Keeps-bind, Keeps-gets, Keeps-pure, Keeps-or_throw,
}
use vibehouse_backend.Exec.Leads.{Leads, Leads-first, Leads-then}
use vibehouse_backend.Colive.{
  ColiveQuote, pending_payment, is_confirmed, ColiveDraft, ColiveInsert, Colive, ColiveServices,
  Stay, draw_stay_uuid, set_quotes, set_drafts, RoomRate,
}
use vibehouse_backend.Colive.Prices.{get_rates, put_rates, get_ezee_pricing}
use vibehouse_backend.Colive.Quotes.{
  QuoteRequest, find_stay, create_quote, create_draft_booking, get_booking_detail, differ,
}
use vibehouse_backend.Colive.Payments.{
  write_draft, queue_insert, insert_of, add_order, create_stay_order, create_colive_order,
  confirm_draft, verify_colive_payment,
}

-- The requests about long stays, and the passing of time.
pub data ColiveRequest : Type 0 where
  quote_request : QuoteRequest → ColiveRequest
  draft_request : (quote_id : ℕ) → QuoteRequest → ColiveRequest
  detail_request : ℕ → Option ℕ → ColiveRequest
  order_request : (guest draft_id grand_total : ℕ) → ColiveRequest
  verify_request : (draft_id order_id payment_id signature : ℕ) → ColiveRequest
  wait : ℕ → ColiveRequest

abbrev done {κ} : {A : Type κ} → Stay A → Stay (Unit {0})
done m = do m; pure tt

unfoldable pub pass_time : ℕ → Stay (Unit {0})
pass_time d s = (ok tt, record s { now = s.now + d })

module _ (env : ColiveServices) where
  unfoldable pub handle_colive : ColiveRequest → Stay (Unit {0})
  handle_colive (quote_request r) = done (create_quote env r)
  handle_colive (draft_request q r) = done (create_draft_booking env q r)
  handle_colive (detail_request d g) = done (get_booking_detail d g)
  handle_colive (order_request g d n) = done (create_colive_order env g d n)
  handle_colive (verify_request d o p x) = done (verify_colive_payment env d o p x)
  handle_colive (wait d) = pass_time d

  unfoldable pub serve_colive : List ColiveRequest → Colive → Colive
  serve_colive [] s = s
  serve_colive (r ∷ rs) s = serve_colive rs (handle_colive r s).1

-- A property of the drafts and of the queue that the three writes to them keep.
module _ (env : ColiveServices) (x : ℕ) (Inv : List ColiveDraft → List ColiveInsert → Type 0)
    (fresh : (n : ℕ) → env.uuid n ≢ x)
    (appended : (ds : List ColiveDraft) (is : List ColiveInsert) (d : ColiveDraft)
      → d.id ≢ x
      → Inv ds is
      → Inv (ds ++ d ∷ []) is)
    (ordered : (ds : List ColiveDraft) (is : List ColiveInsert) (id : ℕ) (d : ColiveDraft)
        (f : ColiveDraft → ColiveDraft)
      → find (λ r. r.id == id) ds ≡ some d
      → is_confirmed d.status ≡ false
      → ((r : ColiveDraft) → (f r).id ≡ r.id)
      → Inv ds is
      → Inv (update_where (λ r. r.id == id) f ds) is)
    (confirms : (ds : List ColiveDraft) (is : List ColiveInsert) (id : ℕ) (d : ColiveDraft)
        (f : ColiveDraft → ColiveDraft) (i : ColiveInsert)
      → find (λ r. r.id == id) ds ≡ some d
      → is_confirmed d.status ≡ false
      → ((r : ColiveDraft) → (f r).id ≡ r.id)
      → ((r : ColiveDraft) → is_confirmed (f r).status ≡ true)
      → i.draft_booking_id ≡ d.id
      → Inv ds is
      → Inv (update_where (λ r. r.id == d.id) f ds) (is ++ i ∷ [])) where
  abbrev Kept : Colive → Type 0
  Kept s = Inv s.drafts s.inserts

  Kept-get_rates : (p a b : ℕ) → Keeps Kept (get_rates env p a b)
  unfolding get_rates
  Kept-get_rates p a b = search keeps_rules depth 40

  Kept-put_rates : (p a b : ℕ) (rs : List RoomRate) → Keeps Kept (put_rates env p a b rs)
  unfolding put_rates
  Kept-put_rates p a b rs = record {
    after = λ s held. elim (Bool-cases (env.redis_up s.now)) [
      | inl up ↦ rw up held
      | inr down ↦ rw down held
    ];
  }

  Kept-get_ezee_pricing : (p a b : ℕ) → Keeps Kept (get_ezee_pricing env p a b)
  unfolding get_ezee_pricing
  Kept-get_ezee_pricing p a b = search (keeps_rules, Kept-get_rates, Kept-put_rates) depth 40

  Kept-draw_stay_uuid : Keeps Kept (draw_stay_uuid env)
  unfolding draw_stay_uuid
  Kept-draw_stay_uuid = record { after = λ s held. held }

  Kept-set_quotes : (f : List ColiveQuote → List ColiveQuote) → Keeps Kept (set_quotes f)
  unfolding set_quotes
  Kept-set_quotes f = record { after = λ s held. held }

  Kept-create_quote : (r : QuoteRequest) → Keeps Kept (create_quote env r)
  unfolding create_quote
  Kept-create_quote r =
      search (keeps_rules, Kept-get_ezee_pricing, Kept-draw_stay_uuid, Kept-set_quotes) depth 40

  Kept-draw_and_append :
      {A : Type 0} (r : ℕ → ColiveDraft) (next : ℕ → Unit {0} → Stay A)
      → ((id : ℕ) → (r id).id ≡ id)
      → ((id : ℕ) (u : Unit {0}) → Keeps Kept (next id u))
      → Keeps Kept (draw_stay_uuid env >>= λ id. set_drafts (λ rows. rows ++ r id ∷ []) >>= next id)
  unfolding draw_stay_uuid set_drafts ◌>>=◌
  Kept-draw_and_append r next own rest = record {
    after = λ s held.
        let id = env.uuid s.drawn in
        (rest id tt).after _
          (appended s.drafts s.inserts (r id) (λ e. fresh s.drawn (sym (own id) ∙ e)) held);
  }

  Kept-create_draft_booking : (q : ℕ) (r : QuoteRequest) → Keeps Kept (create_draft_booking env q r)
  unfolding create_draft_booking
  Kept-create_draft_booking q r = search (keeps_rules, Kept-draw_and_append) depth 40

  Kept-get_booking_detail : (d : ℕ) (g : Option ℕ) → Keeps Kept (get_booking_detail d g)
  unfolding get_booking_detail
  Kept-get_booking_detail d g = search keeps_rules depth 40

  -- An unconfirmed draft was found, and is there still.
  abbrev Unconfirmed : ℕ → ColiveDraft → Colive → Type 0
  Unconfirmed id d s = Kept s × (find_stay id s ≡ some d) × (is_confirmed d.status ≡ false)

  Unconfirmed-create_stay_order :
      (id : ℕ) (d : ColiveDraft) (n : ℕ) → Keeps (Unconfirmed id d) (create_stay_order env n)
  unfolding create_stay_order add_order
  Unconfirmed-create_stay_order id d n = Keeps-bind (gets _) _ (Keeps-gets _) λ answer.
      Keeps-bind (or_throw answer gateway_error) _ (Keeps-or_throw _ _) λ order.
        Keeps-bind (add_order n) _ (record { after = λ s held. held }) λ u. Keeps-pure order

  Leads-write_draft :
      (id : ℕ) (d : ColiveDraft) (f : ColiveDraft → ColiveDraft)
      → ((r : ColiveDraft) → (f r).id ≡ r.id)
      → Leads (Unconfirmed id d) Kept (write_draft id f)
  unfolding set_drafts
  Leads-write_draft id d f same = record {
    after = λ s (held, found, open'). ordered s.drafts s.inserts id d f found open' same held;
  }

  Leads-order :
      (id : ℕ) (d : ColiveDraft) (guest total : ℕ)
      → Leads (Unconfirmed id d) Kept (do
        order ← create_stay_order env total
        write_draft id λ row. record row {
          status = pending_payment;
          razorpay_order_id = some order;
          guest_id = some guest;
        }
        pure order)
  Leads-order id d guest total =
      Leads-first (create_stay_order env total) _ (λ s h. h.0)
        (Unconfirmed-create_stay_order id d total)
        λ order.
          Leads-then (write_draft id _) _ (Leads-write_draft id d _ (λ r. refl))
            λ u. Keeps-pure order

  Kept-create_colive_order :
      (guest id total : ℕ) → Keeps Kept (create_colive_order env guest id total)
  unfolding create_colive_order ◌>>=◌
  Kept-create_colive_order guest id total = record {
    after = λ s held. elim (Bool-cases (total == 0)) [
      | inl nothing ↦ rw nothing held
      | inr some' ↦ elim (Option-cases (find_stay id s)) [
        | inl no' ↦ rw (some', no') held
        | inr (d, found) ↦ elim (Bool-cases (differ (some guest) d.guest_id)) [
          | inl other ↦ simp (some', found, other) held
          | inr own ↦ elim (Bool-cases (is_confirmed d.status)) [
            | inl closed ↦ simp (some', found, own, closed) held
            | inr open' ↦
                simp (some', found, own, open')
                  ((Leads-order id d guest total).after s (held, found, open'))
          ]
        ]
      ]
    ];
  }

  Leads-confirm : (id : ℕ) (d : ColiveDraft) → Leads (Unconfirmed id d) Kept (confirm_draft env d)
  unfolding confirm_draft draw_stay_uuid set_drafts queue_insert insert_of ◌>>=◌
  Leads-confirm id d = record {
    after = λ s (held, found, open').
        confirms s.drafts s.inserts id d _ _ found open' (λ r. refl) (λ r. refl) refl held;
  }

  Kept-verify_colive_payment :
      (id order payment signature : ℕ)
      → Keeps Kept (verify_colive_payment env id order payment signature)
  unfolding verify_colive_payment ◌>>=◌
  Kept-verify_colive_payment id order payment signature = record {
    after = λ s held. elim (Bool-cases (env.signature order payment == signature)) [
      | inr forged ↦ rw forged held
      | inl signed ↦ elim (Option-cases (find_stay id s)) [
        | inl no' ↦ rw (signed, no') held
        | inr (d, found) ↦ elim (Bool-cases (holds_id d.razorpay_order_id order)) [
          | inr other ↦ simp (signed, found, other) held
          | inl own ↦ elim (Bool-cases (is_confirmed d.status)) [
            | inl closed ↦ simp (signed, found, own, closed) held
            | inr open' ↦
                simp (signed, found, own, open') ((Leads-confirm id d).after s (held, found, open'))
          ]
        ]
      ]
    ];
  }

  Kept-done : {A : Type 0} (act : Stay A) → Keeps Kept act → Keeps Kept (done act)
  Kept-done act kept = Keeps-bind act _ kept λ a. Keeps-pure tt

  Kept-handle_colive : (r : ColiveRequest) → Keeps Kept (handle_colive env r)
  unfolding handle_colive pass_time
  Kept-handle_colive (quote_request r) = Kept-done _ (Kept-create_quote r)
  Kept-handle_colive (draft_request q r) = Kept-done _ (Kept-create_draft_booking q r)
  Kept-handle_colive (detail_request d g) = Kept-done _ (Kept-get_booking_detail d g)
  Kept-handle_colive (order_request g d n) = Kept-done _ (Kept-create_colive_order g d n)
  Kept-handle_colive (verify_request d o p y) = Kept-done _ (Kept-verify_colive_payment d o p y)
  Kept-handle_colive (wait d) = record { after = λ s held. held }

  pub Kept-serve_colive :
      (rs : List ColiveRequest) (s : Colive)
      → Inv s.drafts s.inserts
      → Inv (serve_colive env rs s).drafts (serve_colive env rs s).inserts
  unfolding serve_colive
  Kept-serve_colive [] s held = held
  Kept-serve_colive (r ∷ rs) s held =
      Kept-serve_colive rs (handle_colive env r s).1 ((Kept-handle_colive r).after s held)
