-- ===== src/Colive/Agreement.antt =====
-- What a guest is quoted is what the draft booking says.
use vibehouse_backend.Common.{
  ℕ, ◌+◌, ◌/◌, ◌≤◌, ◌≡◌, refl, ap, ◌∙◌, false, ◌&&◌, some, List, [], ◌==◌, ltb, find, Bool-cases,
  Option-cases, inl, inr, ◌⊎◌, imp-All, arith,
}
use vibehouse_backend.Exec.{ok, err, ◌>>=◌, addon_unknown, addon_unavailable}
use vibehouse_backend.Colive.{
  ColiveRoom, RoomRate, CachedRates, ColiveQuote, ColiveDraft, Colive, ColiveServices,
  draw_stay_uuid, set_quotes, set_drafts,
}
use vibehouse_backend.Colive.Prices.{
  is_key, get_rates, put_rates, get_ezee_pricing, rate_of, rate_or_base, draft_lines,
}
use vibehouse_backend.Colive.Quotes.{
  QuoteRequest, has_property, room_option_of, quote_records, new_quote, new_draft, draft_records,
  find_quote, create_quote, create_draft_booking,
}
use vibehouse_backend.Colive.Lines.{
  Agrees, draft_lines-Agrees, IsNamed, each-IsNamed, records_agree,
}

module _ (env : ColiveServices) where
  -- The prices are read with no write but to the cache.
  pricing_run :
      (property checkin checkout : ℕ) (s : Colive)
      → (rates : List RoomRate) × (cached : List CachedRates) × (get_ezee_pricing env property
            checkin checkout s
          ≡ (ok rates, record s { cached = cached }))
  unfolding get_ezee_pricing get_rates put_rates ◌>>=◌
  pricing_run property checkin checkout s =
      elim (Option-cases (
        find
          (λ e. is_key property checkin checkout e && ltb s.now e.expires_at && env.redis_up s.now)
          s.cached)) [
            | inr (e, hit) ↦ (e.rates, s.cached, rw hit refl)
            | inl miss ↦ elim (Option-cases (env.inventory property checkin checkout s.now)) [
              | inl none' ↦ ([], s.cached, rw (miss, none') refl)
              | inr (rates, some') ↦ elim (Bool-cases (env.redis_up s.now)) [
                | inl up ↦ (
                  rates,
                  (put_rates env property checkin checkout rates s).1.cached,
                  rw (miss, some', up) refl,
                )
                | inr down ↦ (rates, s.cached, rw (miss, some', down) refl)
              ]
            ]
          ]

  -- The quote that is answered is the one that the tables give.
  record Quoted (r : QuoteRequest) (s : Colive) (q : ColiveQuote) : Type 0 where
    property : ℕ
    option : ColiveRoom
    monthly : ℕ
    rate : ℕ
    id : ℕ
    now : ℕ
    has : has_property r.property_id s ≡ some property
    offers : room_option_of r s ≡ some option
    same : q ≡ new_quote r option monthly (quote_records r s) rate id now

  create_quote_inv :
      (r : QuoteRequest) (s : Colive) (q : ColiveQuote)
      → (create_quote env r s).0 ≡ ok q
      → Quoted r s q
  unfolding create_quote draw_stay_uuid set_quotes ◌>>=◌
  create_quote_inv r s q done = elim (Option-cases (has_property r.property_id s)) [
    | inl no' ↦ absurd (cc (rw no' at done))
    | inr (property, has) ↦ elim (Option-cases (room_option_of r s)) [
      | inl no' ↦ absurd (cc (rw (has, no') at done))
      | inr (option, offers) ↦ elim (Option-cases option.colive_price_month) [
        | inl no' ↦ absurd (cc (simp (has, offers, no') at done))
        | inr (monthly, priced) ↦
            let (rates, cached, run) =
              pricing_run r.property_id r.move_in_date (r.move_in_date + r.duration_days) s in
            let answer = simp (has, offers, priced, run) at done in
            record {
              property = property;
              option = option;
              monthly = monthly;
              rate = rate_or_base (rate_of option rates) option.base_price_per_night;
              id = env.uuid s.drawn;
              now = s.now;
              has = has;
              offers = offers;
              same = cc;
            }
      ]
    ]
  ]

  -- What is drafted from lines that are refused or are the quote's.
  draft_after :
      (r : QuoteRequest) (t : Colive) (q : ColiveQuote) (option : ColiveRoom) (property : ℕ)
      → find_quote q.id t ≡ some q
      → ltb q.expires_at t.now ≡ false
      → room_option_of r t ≡ some option
      → has_property r.property_id t ≡ some property
      → Agrees (draft_lines (draft_records r t) (r.duration_days / 30) r.addons) q.addons
      → let answer = (create_draft_booking env q.id r t).0 in
        (answer ≡ err addon_unknown)
        ⊎ ((answer ≡ err addon_unavailable)
            ⊎ (answer ≡ ok (new_draft r q option q.addons (env.uuid t.drawn))))
  unfolding create_draft_booking draw_stay_uuid set_drafts ◌>>=◌
  draft_after r t q option property found early offers has (inl e) =
      inl (simp (found, early, offers, has, e) refl)
  draft_after r t q option property found early offers has (inr (inl e)) =
      inr (inl (simp (found, early, offers, has, e) refl))
  draft_after r t q option property found early offers has (inr (inr e)) =
      inr (inr (simp (found, early, offers, has, e) refl))

  charges_same :
      (r : QuoteRequest) (s : Colive) (q : ColiveQuote) (option : ColiveRoom) (id : ℕ)
      → Quoted r s q
      → (new_draft r q option q.addons id).charges ≡ q.charges
  unfolding new_quote
  charges_same r s q option id quoted = rw quoted.same refl

  quote-Agrees :
      (r : QuoteRequest) (s t : Colive) (q : ColiveQuote)
      → Quoted r s q
      → t.addons ≡ s.addons
      → Agrees (draft_lines (draft_records r t) (r.duration_days / 30) r.addons) q.addons
  unfolding new_quote
  quote-Agrees r s t q quoted same =
      rw (quoted.same, same)
        (draft_lines-Agrees (quote_records r s) (draft_records r s) (r.duration_days / 30) r.addons
          (imp-All (IsNamed r.addons) r.addons
            (λ i named. records_agree s.addons r.property_id r.addons i named)
            (each-IsNamed r.addons)))

  -- A draft booking that asks for what was quoted, before the quote expires and while the catalog is
  -- the same, is refused for an addon that is unknown or unavailable, or it has exactly the quote's
  -- charges and addons.
  pub create_draft_booking_lem :
      (r : QuoteRequest) (s t : Colive) (q : ColiveQuote)
      → (create_quote env r s).0 ≡ ok q
      → t.properties ≡ s.properties
      → t.room_options ≡ s.room_options
      → t.addons ≡ s.addons
      → find_quote q.id t ≡ some q
      → t.now ≤ q.expires_at
      → let answer = (create_draft_booking env q.id r t).0 in
        (answer ≡ err addon_unknown)
        ⊎ ((answer ≡ err addon_unavailable)
            ⊎ ((d : ColiveDraft) × (answer ≡ ok d)
                × (d.charges ≡ q.charges)
                × (d.addons ≡ q.addons)))
  create_draft_booking_lem r s t q done properties options addons found early =
      let quoted = create_quote_inv r s q done in
      let option = quoted.option in
      elim (draft_after r t q option quoted.property found (ground arith)
        (ap
            (λ rows.
              find
                (λ o.
                  o.property_id == r.property_id && o.room_type_id == r.room_type_id && o.is_active)
                rows)
            options
          ∙ quoted.offers)
        (ap (λ rows. find (λ p. p == r.property_id) rows) properties ∙ quoted.has)
        (quote-Agrees r s t q quoted addons)) [
          | inl e ↦ inl e
          | inr (inl e) ↦ inr (inl e)
          | inr (inr e) ↦ inr (
              inr (
                new_draft r q option q.addons (env.uuid t.drawn),
                e,
                charges_same r s q option (env.uuid t.drawn) quoted,
                refl,
              ))
        ]
