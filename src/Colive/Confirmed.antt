-- ===== src/Colive/Confirmed.antt =====
-- A confirmed long stay: no request changes it, and it was queued for eZee once.
use vibehouse_backend.Common.{
  ℕ, ◌+◌, ◌≤◌, ◌≡◌, ◌≢◌, ap, sym, ◌∙◌, true, false, some, List, [], ◌∷◌, ◌++◌, ◌==◌, find,
  update_where, if◌then◌else◌, Bool-cases, inl, inr, ◌⊎◌, ==-eq, ==-ne, arith, All, append-All,
  update_where-All, find-All, find-true, Held, Held-append, Held-update_where, Held-found,
}
use vibehouse_backend.Colive.{is_confirmed, ColiveDraft, ColiveInsert, Colive, ColiveServices}
use vibehouse_backend.Colive.Requests.{ColiveRequest, serve_colive, Kept-serve_colive}

-- How often the draft was queued for eZee.
abbrev pub queued : ℕ → List ColiveInsert → ℕ
queued x [] = 0
queued x (i ∷ is) = (if i.draft_booking_id == x then 1 else 0) + queued x is

queued-append :
    (x : ℕ) (is : List ColiveInsert) (i : ColiveInsert)
    → queued x (is ++ i ∷ []) ≡ queued x is + queued x (i ∷ [])
queued-append x [] i = ground arith
queued-append x (j ∷ is) i = let ih = queued-append x is i in ground arith

module _ (x : ℕ) where
  abbrev IsConfirmed : ColiveDraft → Type 0
  IsConfirmed d = d.id ≡ x → is_confirmed d.status ≡ true

  -- Not queued yet, or queued once and confirmed.
  abbrev QueuedOnce : List ColiveDraft → List ColiveInsert → Type 0
  QueuedOnce ds is = (queued x is ≡ 0) ⊎ ((queued x is ≡ 1) × All IsConfirmed ds)

  QueuedOnce-append :
      (ds : List ColiveDraft) (is : List ColiveInsert) (d : ColiveDraft)
      → d.id ≢ x
      → QueuedOnce ds is
      → QueuedOnce (ds ++ d ∷ []) is
  QueuedOnce-append ds is d other (inl none') = inl none'
  QueuedOnce-append ds is d other (inr (one, closed)) =
      inr (one, append-All IsConfirmed ds (d ∷ []) closed (λ e. absurd (other e), tt))

  -- The draft that is found and unconfirmed is another one.
  other_found :
      (ds : List ColiveDraft) (id : ℕ) (d : ColiveDraft)
      → find (λ r. r.id == id) ds ≡ some d
      → is_confirmed d.status ≡ false
      → All IsConfirmed ds
      → (d.id ≡ id) × (id ≢ x)
  other_found ds id d found open' closed =
      let hit = ==-eq d.id id (find-true (λ r. r.id == id) ds found) in
      let own = find-All IsConfirmed (λ r. r.id == id) ds found closed in
      (hit, λ e. absurd (let yes' = own (hit ∙ e) in cc))

  QueuedOnce-order :
      (ds : List ColiveDraft) (is : List ColiveInsert) (id : ℕ) (d : ColiveDraft)
      (f : ColiveDraft → ColiveDraft)
      → find (λ r. r.id == id) ds ≡ some d
      → is_confirmed d.status ≡ false
      → ((r : ColiveDraft) → (f r).id ≡ r.id)
      → QueuedOnce ds is
      → QueuedOnce (update_where (λ r. r.id == id) f ds) is
  QueuedOnce-order ds is id d f found open' same (inl none') = inl none'
  QueuedOnce-order ds is id d f found open' same (inr (one, closed)) =
      let (own, other) = other_found ds id d found open' closed in
      inr (
        one,
        update_where-All IsConfirmed (λ r. r.id == id) f ds
            (λ r hit h e. absurd (other (sym (==-eq r.id id hit) ∙ sym (same r) ∙ e))) closed,
      )

  update_where_rows :
      (id : ℕ) (f : ColiveDraft → ColiveDraft) (ds : List ColiveDraft)
      → id ≡ x
      → ((r : ColiveDraft) → is_confirmed (f r).status ≡ true)
      → All IsConfirmed (update_where (λ r. r.id == id) f ds)
  unfolding update_where
  update_where_rows id f [] own closes = tt
  update_where_rows id f (r ∷ ds) own closes = elim (Bool-cases (r.id == id)) [
    | inl hit ↦ rw hit (λ e. closes r, update_where_rows id f ds own closes)
    | inr miss ↦
        rw miss
          (λ e. absurd (==-ne r.id id miss (e ∙ sym own)), update_where_rows id f ds own closes)
  ]

  QueuedOnce-confirm :
      (ds : List ColiveDraft) (is : List ColiveInsert) (id : ℕ) (d : ColiveDraft)
      (f : ColiveDraft → ColiveDraft) (i : ColiveInsert)
      → find (λ r. r.id == id) ds ≡ some d
      → is_confirmed d.status ≡ false
      → ((r : ColiveDraft) → (f r).id ≡ r.id)
      → ((r : ColiveDraft) → is_confirmed (f r).status ≡ true)
      → i.draft_booking_id ≡ d.id
      → QueuedOnce ds is
      → QueuedOnce (update_where (λ r. r.id == d.id) f ds) (is ++ i ∷ [])
  QueuedOnce-confirm ds is id d f i found open' same closes about (inl none') =
      let count = queued-append x is i in
      elim (Bool-cases (i.draft_booking_id == x)) [
        | inl hit ↦ inr (
          ground arith,
          update_where_rows d.id f ds (sym about ∙ ==-eq i.draft_booking_id x hit) closes,
        )
        | inr miss ↦ inl (ground arith)
      ]
  QueuedOnce-confirm ds is id d f i found open' same closes about (inr (one, closed)) =
      let (own, other) = other_found ds id d found open' closed in
      let count = queued-append x is i in
      let apart' : i.draft_booking_id ≢ x = λ e. other (sym own ∙ sym about ∙ e) in
      inr (
        ground arith,
        update_where-All IsConfirmed (λ r. r.id == d.id) f ds (λ r hit h e. closes r) closed,
      )

  -- Through any requests, and however often a payment is verified, a draft that was not queued for
  -- eZee before is queued at most once. The uuids that are drawn are not the draft's id.
  pub serve_colive_once :
      (env : ColiveServices) (rs : List ColiveRequest) (s : Colive)
      → ((n : ℕ) → env.uuid n ≢ x)
      → queued x s.inserts ≡ 0
      → queued x (serve_colive env rs s).inserts ≤ 1
  serve_colive_once env rs s fresh none' =
      elim (Kept-serve_colive env x QueuedOnce fresh QueuedOnce-append QueuedOnce-order
        QueuedOnce-confirm rs s (inl none')) [
          | inl z ↦ ground arith
          | inr (one, closed) ↦ ground arith
        ]

module _ (row : ColiveDraft) (closed : is_confirmed row.status ≡ true) where
  abbrev IsHeld : List ColiveDraft → List ColiveInsert → Type 0
  IsHeld ds is = Held (λ d. d.id) row ds

  -- An unconfirmed draft that is found is not the row.
  not_row :
      (ds : List ColiveDraft) (id : ℕ) (d : ColiveDraft)
      → find (λ r. r.id == id) ds ≡ some d
      → is_confirmed d.status ≡ false
      → Held (λ r. r.id) row ds
      → (d.id ≡ id) × ((row.id == id) ≡ false)
  not_row ds id d found open' held =
      let hit = ==-eq d.id id (find-true (λ r. r.id == id) ds found) in
      (
        hit,
        elim (Bool-cases (row.id == id)) [
          | inr miss ↦ miss
          | inl same ↦
              let own : d ≡ row =
                Held-found (λ r. r.id) row (λ r. r.id == id) ds held found
                  (hit ∙ sym (==-eq row.id id same)) in
              absurd (let one = ap (λ r. is_confirmed r.status) own in cc)
        ],
      )

  -- A confirmed draft stays as it is through any requests. No other draft has its id, and the uuids
  -- that are drawn are not that id.
  pub serve_colive-Held :
      (env : ColiveServices) (rs : List ColiveRequest) (s : Colive)
      → ((n : ℕ) → env.uuid n ≢ row.id)
      → Held (λ d. d.id) row s.drafts
      → Held (λ d. d.id) row (serve_colive env rs s).drafts
  serve_colive-Held env rs s fresh held =
      Kept-serve_colive env row.id IsHeld fresh
        (λ ds is d other h. Held-append (λ r. r.id) row d ds other h)
        (λ ds is id d f found open' same h.
          Held-update_where (λ r. r.id) row (λ r. r.id == id) f ds (not_row ds id d found open' h).1
            same h)
        (λ ds is id d f i found open' same closes about h.
          let (own, other) = not_row ds id d found open' h in
          Held-update_where (λ r. r.id) row (λ r. r.id == d.id) f ds (rw own other) same h)
        rs s held
