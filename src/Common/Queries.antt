-- ===== src/Common/Queries.antt =====
-- A table is the list of its rows; these are the queries and the writes that the services make.
use Prim.Native.Nat.{ℕ, suc, ◌+◌}
use mathlib.Core.Path.{◌≡◌, refl, ap}
use mathlib.Core.Logic.{inl, inr}
use mathlib.Core.Bool.{Bool, true, false, ◌&&◌}
use mathlib.Core.Option.{Option, none, some}
use mathlib.Core.List.{List, [], ◌∷◌, ◌++◌, map}
use native.Mathlib.Omega.{arith}
use vibehouse_backend.Common.Tests.{is_some, if◌then◌else◌, Bool-cases}

module _ {ℓ} {A : Type ℓ} where
  abbrev pub length : List A → ℕ
  length [] = 0
  length (x ∷ xs) = suc (length xs)

  -- `findFirst`, `find`: the first row that matches.
  unfoldable pub find : (A → Bool) → List A → Option A
  find p [] = none
  find p (x ∷ xs) = if p x then some x else find p xs

  -- `findFirst` with `orderBy: { created_at: 'desc' }`: rows are appended as they are created.
  unfoldable pub find_last : (A → Bool) → List A → Option A
  find_last p [] = none
  find_last p (x ∷ xs) = elim (find_last p xs) [
    | none ↦ if p x then some x else none
    | some y ↦ some y
  ]

  -- `findMany`, `filter`
  unfoldable pub where_ : (A → Bool) → List A → List A
  where_ p [] = []
  where_ p (x ∷ xs) = let rest = where_ p xs in if p x then x ∷ rest else rest

  -- `update`, `updateMany` with a write that cannot fail.
  unfoldable pub update_where : (A → Bool) → (A → A) → List A → List A
  update_where p f [] = []
  update_where p f (x ∷ xs) = (if p x then f x else x) ∷ update_where p f xs

  -- `delete`, `deleteMany`
  unfoldable pub delete_where : (A → Bool) → List A → List A
  delete_where p [] = []
  delete_where p (x ∷ xs) = let rest = delete_where p xs in if p x then rest else x ∷ rest

  -- `reduce((sum, x) => sum + f(x), 0)`
  abbrev pub sum_of : (A → ℕ) → List A → ℕ
  sum_of f [] = 0
  sum_of f (x ∷ xs) = f x + sum_of f xs

  -- `every`
  abbrev pub every : (A → Bool) → List A → Bool
  every p [] = true
  every p (x ∷ xs) = p x && every p xs

  abbrev keep_row : A → Option (List A) → Option (List A)
  keep_row x none = none
  keep_row x (some xs) = some (x ∷ xs)

  abbrev keep_written : Option A → Option (List A) → Option (List A)
  keep_written none rest = none
  keep_written (some x) rest = keep_row x rest

  -- An `update` whose write a CHECK constraint may refuse: no row is written then.
  unfoldable pub update_checked : (A → Bool) → (A → Option A) → List A → Option (List A)
  update_checked p f [] = some []
  update_checked p f (x ∷ xs) =
      let rest = update_checked p f xs in if p x then keep_written (f x) rest else keep_row x rest

  keep_row_inv :
      (x : A) (rest : Option (List A)) {ys : List A}
      → keep_row x rest ≡ some ys
      → (xs : List A) × (rest ≡ some xs) × (x ∷ xs ≡ ys)
  keep_row_inv x none e = cc
  keep_row_inv x (some xs) e = (xs, refl, cc)

  keep_written_inv :
      (o : Option A) (rest : Option (List A)) {ys : List A}
      → keep_written o rest ≡ some ys
      → (x : A) × (o ≡ some x) × (xs : List A) × (rest ≡ some xs) × (x ∷ xs ≡ ys)
  keep_written_inv none rest e = cc
  keep_written_inv (some x) rest e = let (xs, a, b) = keep_row_inv x rest e in (x, refl, xs, a, b)

module _ {ℓ κ} {A : Type ℓ} (P : A → Type κ) where
  abbrev pub All : List A → Type κ
  All [] = Unit
  All (x ∷ xs) = P x × All xs

module _ {ℓ κ} {A : Type ℓ} (P : A → Type κ) where
  -- What holds of every row holds of the row that is found.
  pub find-All : (p : A → Bool) (xs : List A) {x : A} → find p xs ≡ some x → All P xs → P x
  unfolding find
  find-All p [] e h = absurd (cc)
  find-All p (y ∷ xs) {x} e h = elim (Bool-cases (p y)) [
    | inl hit ↦ let same : y ≡ x = ground arith in rw (← same) h.0
    | inr miss ↦ find-All p xs (ground arith) h.1
  ]

  pub delete_where-All : (p : A → Bool) (xs : List A) → All P xs → All P (delete_where p xs)
  unfolding delete_where
  delete_where-All p [] h = tt
  delete_where-All p (x ∷ xs) h = elim (Bool-cases (p x)) [
    | inl hit ↦ rw hit (delete_where-All p xs h.1)
    | inr miss ↦ rw miss (h.0, delete_where-All p xs h.1)
  ]

  pub append-All : (xs ys : List A) → All P xs → All P ys → All P (xs ++ ys)
  append-All [] ys h k = k
  append-All (x ∷ xs) ys h k = (h.0, append-All xs ys h.1 k)

  pub update_where-All :
      (p : A → Bool) (f : A → A) (xs : List A)
      → ((x : A) → p x ≡ true → P x → P (f x))
      → All P xs
      → All P (update_where p f xs)
  unfolding update_where
  update_where-All p f [] keep h = tt
  update_where-All p f (x ∷ xs) keep h = elim (Bool-cases (p x)) [
    | inl hit ↦ rw hit (keep x hit h.0, update_where-All p f xs keep h.1)
    | inr miss ↦ rw miss (h.0, update_where-All p f xs keep h.1)
  ]

  pub update_checked-All :
      (p : A → Bool) (f : A → Option A) (xs : List A) {ys : List A}
      → ((x x' : A) → f x ≡ some x' → P x → P x')
      → update_checked p f xs ≡ some ys
      → All P xs
      → All P ys
  unfolding update_checked
  update_checked-All p f [] {ys} keep e h = let same : [] ≡ ys = ground arith in rw (← same) tt
  update_checked-All p f (x ∷ xs) keep e h = elim (Bool-cases (p x)) [
    | inl hit ↦
        let (x', e₁, ys', e₂, e₃) = keep_written_inv (f x) (update_checked p f xs) (rw hit at e) in
        rw (← e₃) (keep x x' e₁ h.0, update_checked-All p f xs keep e₂ h.1)
    | inr miss ↦
        let (ys', e₂, e₃) = keep_row_inv x (update_checked p f xs) (rw miss at e) in
        rw (← e₃) (h.0, update_checked-All p f xs keep e₂ h.1)
  ]

  pub map-All : (g : A → A) (xs : List A) → All (λ x. P (g x)) xs → All P (map g xs)
  map-All g [] h = tt
  map-All g (x ∷ xs) h = (h.0, map-All g xs h.1)

  pub imp-All {ι} : {Q : A → Type ι} (xs : List A) → ((x : A) → P x → Q x) → All P xs → All Q xs
  imp-All [] f h = tt
  imp-All (x ∷ xs) f h = (f x h.0, imp-All xs f h.1)

module _ {ℓ κ ι} {A : Type ℓ} (P : A → Type κ) (Q : A → Type ι) where
  pub both-All : (xs : List A) → All P xs → All Q xs → All (λ x. P x × Q x) xs
  both-All [] h k = tt
  both-All (x ∷ xs) h k = ((h.0, k.0), both-All xs h.1 k.1)

module _ {ℓ κ ι o} {A : Type ℓ} {B : Type ι} (P : A → Type κ) (Q : B → Type o) where
  pub map_to-All :
      (f : A → B) (xs : List A) → ((x : A) → P x → Q (f x)) → All P xs → All Q (map f xs)
  map_to-All f [] h k = tt
  map_to-All f (x ∷ xs) h k = (h x k.0, map_to-All f xs h k.1)

-- What holds of the rows that are selected, and of those that select.
module _ {ℓ κ} {A : Type ℓ} (P : A → Type κ) where
  pub where_-All : (p : A → Bool) (xs : List A) → All P xs → All P (where_ p xs)
  unfolding where_
  where_-All p [] h = tt
  where_-All p (x ∷ xs) h = elim (Bool-cases (p x)) [
    | inl hit ↦ rw hit (h.0, where_-All p xs h.1)
    | inr miss ↦ rw miss (where_-All p xs h.1)
  ]

  pub where_-imp :
      (p : A → Bool) (xs : List A) → All (λ x. p x ≡ true → P x) xs → All P (where_ p xs)
  unfolding where_
  where_-imp p [] h = tt
  where_-imp p (x ∷ xs) h = elim (Bool-cases (p x)) [
    | inl hit ↦ rw hit (h.0 hit, where_-imp p xs h.1)
    | inr miss ↦ rw miss (where_-imp p xs h.1)
  ]

  pub where_-back :
      (p : A → Bool) (xs : List A) → All P (where_ p xs) → All (λ x. p x ≡ true → P x) xs
  unfolding where_
  where_-back p [] h = tt
  where_-back p (x ∷ xs) h = elim (Bool-cases (p x)) [
    | inl hit ↦ let both = rw hit at h in (λ chosen. both.0, where_-back p xs both.1)
    | inr miss ↦ (λ chosen. absurd (cc), where_-back p xs (rw miss at h))
  ]

module _ {ℓ} {A : Type ℓ} where
  pub where_-true : (p : A → Bool) (xs : List A) → All (λ x. p x ≡ true) (where_ p xs)
  unfolding where_
  where_-true p [] = tt
  where_-true p (x ∷ xs) = elim (Bool-cases (p x)) [
    | inl hit ↦ rw hit (hit, where_-true p xs)
    | inr miss ↦ rw miss (where_-true p xs)
  ]

  pub where_-none : (p : A → Bool) (xs : List A) → All (λ x. p x ≡ false) xs → where_ p xs ≡ []
  unfolding where_
  where_-none p [] h = refl
  where_-none p (x ∷ xs) h = rw h.0 (where_-none p xs h.1)

module _ {ℓ} {A : Type ℓ} where
  pub map_same : (f : A → A) (xs : List A) → ((x : A) → f x ≡ x) → map f xs ≡ xs
  map_same f [] e = refl
  map_same f (x ∷ xs) e = let head = e x in let tail = map_same f xs e in cc

  pub map_twice :
      (f g h : A → A) (xs : List A) → ((x : A) → f (g x) ≡ h x) → map f (map g xs) ≡ map h xs
  map_twice f g h [] e = refl
  map_twice f g h (x ∷ xs) e = let head = e x in let tail = map_twice f g h xs e in cc

  pub find-true : (p : A → Bool) (xs : List A) {x : A} → find p xs ≡ some x → p x ≡ true
  unfolding find
  find-true p [] e = absurd (cc)
  find-true p (y ∷ xs) {x} e = elim (Bool-cases (p y)) [
    | inl hit ↦ let same : y ≡ x = ground arith in rw (← same) hit
    | inr miss ↦ find-true p xs (ground arith)
  ]

  -- What is found is found with more rows after it, and a row that matches is.
  pub found_kept :
      (q : A → Bool) (rows more : List A)
      → is_some (find q rows) ≡ true
      → is_some (find q (rows ++ more)) ≡ true
  unfolding find
  found_kept q [] more e = absurd (cc)
  found_kept q (x ∷ rows) more e = ground (arith, found_kept q rows more)

  pub found_there :
      (q : A → Bool) (rows : List A) (x : A) (more : List A)
      → q x ≡ true
      → is_some (find q (rows ++ x ∷ more)) ≡ true
  unfolding find
  found_there q [] x more e = rw e refl
  found_there q (y ∷ rows) x more e = ground (arith, found_there q rows x more e)

  pub map_undo : (f g : A → A) (xs : List A) → All (λ x. f (g x) ≡ x) xs → map f (map g xs) ≡ xs
  map_undo f g [] h = refl
  map_undo f g (x ∷ xs) h = let head = h.0 in let tail = map_undo f g xs h.1 in cc

  -- An update that no CHECK constraint refuses.
  pub update_checked-map :
      (p : A → Bool) (f : A → Option A) (g : A → A) (xs : List A)
      → All (λ x. (if p x then f x else some x) ≡ some (g x)) xs
      → update_checked p f xs ≡ some (map g xs)
  unfolding update_checked
  update_checked-map p f g [] h = refl
  update_checked-map p f g (x ∷ xs) h =
      let ih = update_checked-map p f g xs h.1 in
      let row = h.0 in
      elim (Bool-cases (p x)) [
        | inl hit ↦ let wrote : f x ≡ some (g x) = rw hit at row in rw (hit, ih, wrote) refl
        | inr miss ↦
            let kept : some x ≡ some (g x) = rw miss at row in
            let same : x ≡ g x = cc in rw (miss, ih) (ap (λ y. some (y ∷ map g xs)) same)
      ]
