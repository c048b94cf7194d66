-- ===== src/Worker/Once/Rows.antt =====
-- The rows that a write numbers, and calls that eZee refuses.
use vibehouse_backend.Common.{
  ℕ, ◌≡◌, ◌≢◌, ◌∙◌, Bool, true, false, List, [], ◌∷◌, ◌==◌, update_where, is_some, All, Bool-cases,
  inl, inr, arith,
}
use vibehouse_backend.Worker.{
  SyncBooking, Draft, Subject, of_booking, of_draft, subject_eq, EzeeCall, Worker, log_call,
}
use vibehouse_backend.Worker.Once.{inserts, inserts-append, Numbered, Once}

-- After a write to every row that `p` selects.
update_where_rows :
    {A : Type 0} (P : A → Type 0) (p : A → Bool) (f : A → A) (xs : List A)
    → ((x : A) → p x ≡ true → P (f x))
    → ((x : A) → p x ≡ false → P x)
    → All P (update_where p f xs)
unfolding update_where
update_where_rows P p f [] hit miss = tt
update_where_rows P p f (x ∷ xs) hit miss = elim (Bool-cases (p x)) [
  | inl e ↦ rw e (hit x e, update_where_rows P p f xs hit miss)
  | inr e ↦ rw e (miss x e, update_where_rows P p f xs hit miss)
]

every_row : {A : Type 0} (P : A → Type 0) (xs : List A) → ((x : A) → P x) → All P xs
every_row P [] h = tt
every_row P (x ∷ xs) h = (h x, every_row P xs h)

same_booking :
    (a e : ℕ) (x : Subject)
    → subject_eq (of_booking e) x ≡ true
    → subject_eq (of_booking a) x ≡ true
    → (a == e) ≡ true
same_booking a e (of_booking b) h k = ground arith
same_booking a e (of_draft b) h k = absurd (cc)

same_draft :
    (a e : ℕ) (x : Subject)
    → subject_eq (of_draft e) x ≡ true
    → subject_eq (of_draft a) x ≡ true
    → (a == e) ≡ true
same_draft a e (of_draft b) h k = ground arith
same_draft a e (of_booking b) h k = absurd (cc)

no_draft :
    (a e : ℕ) (x : Subject) → subject_eq (of_booking e) x ≡ true → subject_eq (of_draft a) x ≢ true
no_draft a e (of_booking b) h k = absurd (cc)
no_draft a e (of_draft b) h k = absurd (cc)

no_booking :
    (a e : ℕ) (x : Subject) → subject_eq (of_draft e) x ≡ true → subject_eq (of_booking a) x ≢ true
no_booking a e (of_booking b) h k = absurd (cc)
no_booking a e (of_draft b) h k = absurd (cc)

module _ (subject : Subject) where
  abbrev pub NumberedBooking : SyncBooking → Type 0
  NumberedBooking b =
      subject_eq (of_booking b.eri) subject ≡ true → is_some b.ezee_reservation_no ≡ true

  abbrev pub NumberedDraft : Draft → Type 0
  NumberedDraft d = subject_eq (of_draft d.id) subject ≡ true → is_some d.ezee_reservation_no ≡ true

  pub booking_written :
      (eri : ℕ) (f : SyncBooking → SyncBooking) (t : Worker)
      → ((b : SyncBooking) → is_some (f b).ezee_reservation_no ≡ true)
      → subject_eq (of_booking eri) subject ≡ true
      → Numbered subject (record t { bookings = update_where (λ b. b.eri == eri) f t.bookings })
  booking_written eri f t number hit = (
    update_where_rows NumberedBooking (λ b. b.eri == eri) f t.bookings (λ b e of'. number b)
        (λ b e of'. let e' = same_booking b.eri eri subject hit of' in absurd (cc)),
    every_row NumberedDraft t.drafts (λ d of'. absurd (no_draft d.id eri subject hit of')),
  )

  pub draft_written :
      (id : ℕ) (f : Draft → Draft) (t : Worker)
      → ((d : Draft) → is_some (f d).ezee_reservation_no ≡ true)
      → subject_eq (of_draft id) subject ≡ true
      → Numbered subject (record t { drafts = update_where (λ d. d.id == id) f t.drafts })
  draft_written id f t number hit = (
    every_row NumberedBooking t.bookings (λ b of'. absurd (no_booking b.eri id subject hit of')),
    update_where_rows NumberedDraft (λ d. d.id == id) f t.drafts (λ d e of'. number d)
        (λ d e of'. let e' = same_draft d.id id subject hit of' in absurd (cc)),
  )

  pub Once-refused :
      (call : EzeeCall) (s : Worker) → Once subject s → Once subject (log_call call false s)
  Once-refused call s held =
      let count = inserts-append subject s.sent (record { call = call; taken = false }) in
      let same : inserts subject (log_call call false s).sent ≡ inserts subject s.sent =
        ground arith in
      elim held [ inl none' ↦ inl (same ∙ none') | inr (one, rows) ↦ inr (same ∙ one, rows) ]
