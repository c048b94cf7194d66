-- ===== src/Common/Kept.antt =====
-- A row of a table that is the only one with its id, under the writes that pass it over.
use Prim.Native.Nat.{ℕ}
use mathlib.Core.Path.{◌≡◌, refl, ap, sym, ◌∙◌}
use mathlib.Core.Logic.{◌≢◌, inl, inr}
use mathlib.Core.Bool.{Bool, false}
use mathlib.Core.Option.{some}
use mathlib.Core.List.{List, [], ◌∷◌, ◌++◌}
use native.Mathlib.Omega.{arith}
use vibehouse_backend.Common.Tests.{◌==◌, Bool-cases, ==-eq, ==_self}
use vibehouse_backend.Common.Queries.{
  find, update_where, All, find-All, append-All, update_where-All,
}

module _ {ℓ} {A : Type ℓ} (id : A → ℕ) (row : A) where
  abbrev pub IsOnly : A → Type ℓ
  IsOnly x = id x ≡ id row → x ≡ row

  -- The row is in the table, and no other has its id.
  abbrev pub Held : List A → Type ℓ
  Held rows = (find (λ x. id x == id row) rows ≡ some row) × All IsOnly rows

  find-append :
      (x : A) (rows : List A)
      → find (λ x. id x == id row) rows ≡ some row
      → find (λ x. id x == id row) (rows ++ x ∷ []) ≡ some row
  unfolding find
  find-append x [] e = absurd (cc)
  find-append x (y ∷ rows) e = ground (arith, find-append x rows)

  find-update_where :
      (p : A → Bool) (f : A → A) (rows : List A)
      → p row ≡ false
      → ((x : A) → id (f x) ≡ id x)
      → All IsOnly rows
      → find (λ x. id x == id row) rows ≡ some row
      → find (λ x. id x == id row) (update_where p f rows) ≡ some row
  unfolding find update_where
  find-update_where p f [] skip same only e = absurd (cc)
  find-update_where p f (y ∷ rows) skip same only e = elim (Bool-cases (id y == id row)) [
    | inl hit ↦
        let own : y ≡ row = only.0 (==-eq (id y) (id row) hit) in
        rw (own, skip, ==_self (id row)) refl
    | inr miss ↦
        let ih = find-update_where p f rows skip same only.1 (rw miss at e) in
        elim (Bool-cases (p y)) [
          | inl change ↦ rw (change, same y, miss) ih
          | inr keep ↦ rw (keep, miss) ih
        ]
  ]

  pub Held-append : (x : A) (rows : List A) → id x ≢ id row → Held rows → Held (rows ++ x ∷ [])
  Held-append x rows other h = (
    find-append x rows h.0,
    append-All IsOnly rows (x ∷ []) h.1 (λ same. absurd (other same), tt),
  )

  -- A write to other rows.
  pub Held-update_where :
      (p : A → Bool) (f : A → A) (rows : List A)
      → p row ≡ false
      → ((x : A) → id (f x) ≡ id x)
      → Held rows
      → Held (update_where p f rows)
  Held-update_where p f rows skip same h = (
    find-update_where p f rows skip same h.1 h.0,
    update_where-All IsOnly p f rows
        (λ x hit only again.
          let own : x ≡ row = only (sym (same x) ∙ again) in absurd (cc (ap p own)))
        h.1,
  )

  -- A row that is found and has the id is the row.
  pub Held-found :
      (p : A → Bool) (rows : List A) {x : A}
      → Held rows
      → find p rows ≡ some x
      → id x ≡ id row
      → x ≡ row
  Held-found p rows h found same = find-All IsOnly p rows found h.1 same
