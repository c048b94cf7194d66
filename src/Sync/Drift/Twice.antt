-- ===== src/Sync/Drift/Twice.antt =====
-- A pass of `reconcileEzeeState` over the whole table, and a second one after it.
use vibehouse_backend.Common.{
  ℕ, ◌≡◌, refl, ap, sym, ◌∙◌, List, [], ◌∷◌, ◌++◌, where_, map, map_twice, All, append-All,
  Bool-cases, inl, inr, if◌then◌else◌,
}
use mathlib.Core.List.{append_assoc, append-nil}
use vibehouse_backend.Exec.{Result, ok, for_each, ◌>>=◌}
use vibehouse_backend.Sync.{
  eri_eq, Cached, LockRequest, Sync, Fetched, failed, not_found, without_tran, tran,
}
use vibehouse_backend.Sync.Drift.{
  is_synced, react, correct_drift, answer, reconcile_one, reconcile_ezee_state,
}
use vibehouse_backend.Sync.Drift.Passes.{
  corrected, step, step_twice, step_eri, corrected_key, lock_for, lock_for_none, correct_drift_lem,
  Apart,
}

-- The primary key of the table, read in both directions.
abbrev pub Distinct : List Cached → Type 0
Distinct [] = Unit
Distinct (b ∷ bs) = All (Apart b) bs × All (λ c. Apart c b) bs × Distinct bs

untouched :
    (table : List Cached) (s : Sync)
    → s.bookings ≡ table
    → ◌≡◌ {A = Result (Unit {0}) × Sync}
        (ok tt, s)
        (ok tt, record s { bookings = table; lock_requests = s.lock_requests ++ [] })
untouched table s e =
    ap (λ t. (ok tt, record s { bookings = t })) e
    ∙ ap (λ l. (ok tt, record s { bookings = table; lock_requests = l }))
        (sym (append-nil s.lock_requests))

react_lem :
    (a : Fetched) (b : Cached) (before after : List Cached) (s : Sync)
    → All (Apart b) before
    → All (Apart b) after
    → s.bookings ≡ before ++ b ∷ after
    → react a b s ≡ (
      ok tt,
      record s {
        bookings = before ++ corrected a b ∷ after;
        lock_requests = s.lock_requests ++ lock_for a b;
      },
    )
unfolding react ◌>>=◌
react_lem failed b before after s x y e = untouched (before ++ b ∷ after) s e
react_lem not_found b before after s x y e = untouched (before ++ b ∷ after) s e
react_lem without_tran b before after s x y e = untouched (before ++ b ∷ after) s e
react_lem (tran st room) b before after s x y e =
    ap (λ t. correct_drift b st room (record s { bookings = t })) e
    ∙ correct_drift_lem b before after x y st room s

module _ (ezee : ℕ → ℕ → Fetched) where
  abbrev pub lock_of : Cached → List LockRequest
  lock_of b = if is_synced b then lock_for (answer ezee b) b else []

  abbrev pub locks : List Cached → List LockRequest
  locks [] = []
  locks (b ∷ bs) = lock_of b ++ locks bs

  -- No row to come has the id of a row that is done.
  abbrev Later : List Cached → List Cached → Type 0
  Later before rows = All (λ b. All (Apart b) before) rows

  step_below :
      (x : Cached) (before rows : List Cached)
      → All (λ c. Apart c x) rows
      → Later before rows
      → Later (before ++ x ∷ []) rows
  step_below x before [] apart h = tt
  step_below x before (c ∷ rows) apart h =
      (append-All (Apart c) before (x ∷ []) h.0 (apart.0, tt), step_below x before rows apart.1 h.1)

  same_keys :
      (x b : Cached) (rows : List Cached)
      → x.eri ≡ b.eri
      → All (λ c. Apart c b) rows
      → All (λ c. Apart c x) rows
  same_keys x b [] same h = tt
  same_keys x b (c ∷ rows) same h =
      (ap (λ e. eri_eq e c.eri) same ∙ h.0, same_keys x b rows same h.1)

  -- The loop over the rows that are read, on a table where `before` is done.
  pass_lem :
      (rows before : List Cached) (s : Sync)
      → Distinct rows
      → Later before rows
      → s.bookings ≡ before ++ rows
      → for_each (where_ is_synced rows) (reconcile_one ezee) s ≡ (
        ok tt,
        record s {
          bookings = before ++ map (step ezee) rows;
          lock_requests = s.lock_requests ++ locks rows;
        },
      )
  unfolding for_each where_ step ◌>>=◌
  pass_lem [] before s d l e = untouched (before ++ []) s e
  pass_lem (b ∷ rows) before s d l e = elim (Bool-cases (is_synced b)) [
    | inr skip ↦ rw skip (
        pass_lem rows (before ++ b ∷ []) s d.2 (step_below b before rows d.1 l.1)
          (e ∙ sym (append_assoc before (b ∷ []) rows))
        ∙ ap
            (λ t. (ok tt, record s { bookings = t; lock_requests = s.lock_requests ++ locks rows }))
            (append_assoc before (b ∷ []) (map (step ezee) rows)))
    | inl read' ↦
        let a = answer ezee b in
        let x = corrected a b in
        let s' = record s {
          bookings = before ++ x ∷ rows;
          lock_requests = s.lock_requests ++ lock_for a b;
        } in
        let far =
          step_below x before rows (same_keys x b rows (corrected_key ezee a b).0 d.1) l.1 in
        rw (read', react_lem a b before rows s l.0 d.0 e)
          (pass_lem rows (before ++ x ∷ []) s' d.2 far (sym (append_assoc before (x ∷ []) rows))
            ∙ ap
                (λ t. (
                  ok tt,
                  record s {
                    bookings = t;
                    lock_requests = (s.lock_requests ++ lock_for a b) ++ locks rows;
                  },
                ))
                (append_assoc before (x ∷ []) (map (step ezee) rows))
            ∙ ap
                (λ q. (
                  ok tt,
                  record s { bookings = before ++ x ∷ map (step ezee) rows; lock_requests = q },
                ))
                (append_assoc s.lock_requests (lock_for a b) (locks rows)))
  ]

  map_keys :
      (b : Cached) (rows : List Cached)
      → All (Apart b) rows
      → All (Apart (step ezee b)) (map (step ezee) rows)
  map_keys b [] h = tt
  map_keys b (c ∷ rows) h = (
    ap (λ e. eri_eq e (step ezee b).eri) (step_eri ezee c)
        ∙ ap (eri_eq c.eri) (step_eri ezee b)
        ∙ h.0,
    map_keys b rows h.1,
  )

  map_keys_back :
      (b : Cached) (rows : List Cached)
      → All (λ c. Apart c b) rows
      → All (λ c. Apart c (step ezee b)) (map (step ezee) rows)
  map_keys_back b [] h = tt
  map_keys_back b (c ∷ rows) h = (
    ap (λ e. eri_eq e (step ezee c).eri) (step_eri ezee b)
        ∙ ap (eri_eq b.eri) (step_eri ezee c)
        ∙ h.0,
    map_keys_back b rows h.1,
  )

  map-Distinct : (rows : List Cached) → Distinct rows → Distinct (map (step ezee) rows)
  map-Distinct [] d = tt
  map-Distinct (b ∷ rows) d = (map_keys b rows d.0, map_keys_back b rows d.1, map-Distinct rows d.2)

  lock_of_none : (b : Cached) → lock_of (step ezee b) ≡ []
  unfolding step
  lock_of_none b = elim (Bool-cases (is_synced b)) [
    | inr skip ↦ rw (skip, skip) refl
    | inl read' ↦ elim (Bool-cases (is_synced (corrected (answer ezee b) b))) [
      | inr skip ↦ rw (read', skip) refl
      | inl again ↦
          rw (read', again, (corrected_key ezee (answer ezee b) b).1)
            (lock_for_none (answer ezee b) b)
    ]
  ]

  locks_none : (rows : List Cached) → locks (map (step ezee) rows) ≡ []
  locks_none [] = refl
  locks_none (b ∷ rows) = rw (lock_of_none b) (locks_none rows)

  nothing_before : (rows : List Cached) → Later [] rows
  nothing_before [] = tt
  nothing_before (b ∷ rows) = (tt, nothing_before rows)

  -- A pass, which reads the rows first and then writes one after another by its id, is one write of
  -- the whole table: each row becomes what `step` makes of it, and each arrival asks for its lock
  -- once. The reservation ids are distinct.
  pub reconcile_ezee_state_lem :
      (s : Sync)
      → Distinct s.bookings
      → reconcile_ezee_state ezee s ≡ (
        ok tt,
        record s {
          bookings = map (step ezee) s.bookings;
          lock_requests = s.lock_requests ++ locks s.bookings;
        },
      )
  unfolding reconcile_ezee_state ◌>>=◌
  reconcile_ezee_state_lem s d = pass_lem s.bookings [] s d (nothing_before s.bookings) refl

  -- A second pass with the same answers from eZee changes nothing and asks for no lock.
  pub reconcile_ezee_state_twice :
      (s : Sync)
      → Distinct s.bookings
      → (reconcile_ezee_state ezee (reconcile_ezee_state ezee s).1).1
        ≡ (reconcile_ezee_state ezee s).1
  reconcile_ezee_state_twice s d = rw (reconcile_ezee_state_lem s d) (
      let rows = map (step ezee) s.bookings in
      let s' = record s { bookings = rows; lock_requests = s.lock_requests ++ locks s.bookings } in
      ap (λ r. r.1) (reconcile_ezee_state_lem s' (map-Distinct s.bookings d))
      ∙ ap (λ t. record s' { bookings = t; lock_requests = s'.lock_requests ++ locks rows })
          (map_twice (step ezee) (step ezee) (step ezee) s.bookings (step_twice ezee))
      ∙ ap (λ l. record s' { lock_requests = s'.lock_requests ++ l }) (locks_none s.bookings)
      ∙ ap (λ l. record s' { lock_requests = l }) (append-nil s'.lock_requests))
