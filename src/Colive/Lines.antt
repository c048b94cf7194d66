-- ===== src/Colive/Lines.antt =====
-- The lines of a quote and of a draft for the same addons.
use vibehouse_backend.Common.{
  ℕ, ◌≡◌, ◌≢◌, refl, sym, ◌∙◌, Bool, true, ◌&&◌, Option, none, some, List, [], ◌∷◌, ◌==◌, ltb, find,
  where_, Bool-cases, inl, inr, ◌⊎◌, ==_self, ==-eq, ==-ne, imp-All, arith, All,
}
use vibehouse_backend.Exec.{Result, ok, err, addon_unknown, addon_unavailable}
use vibehouse_backend.Colive.{ColiveAddon, AddonLine}
use vibehouse_backend.Colive.Prices.{
  AddonInput, stay_addon_line, names, addon_records, record_of, quote_line, quote_lines, with_line,
  draft_line, draft_lines,
}

find-where_ :
    {A : Type 0} (p q : A → Bool) (xs : List A) → find q (where_ p xs) ≡ find (λ x. p x && q x) xs
unfolding find where_
find-where_ p q [] = refl
find-where_ p q (x ∷ xs) = ground (arith, find-where_ p q xs)

find_same :
    {A : Type 0} (p q : A → Bool) (xs : List A) → ((x : A) → p x ≡ q x) → find p xs ≡ find q xs
unfolding find
find_same p q [] same = refl
find_same p q (x ∷ xs) same = rw (same x, find_same p q xs same) refl

-- A draft's lines are refused for one of two reasons, or are these.
abbrev pub Agrees : Result (List AddonLine) → List AddonLine → Type 0
Agrees drafted quoted =
    (drafted ≡ err addon_unknown) ⊎ ((drafted ≡ err addon_unavailable) ⊎ (drafted ≡ ok quoted))

with_line-Agrees :
    (l : AddonLine) (rest : Result (List AddonLine)) (lines : List AddonLine)
    → Agrees rest lines
    → Agrees (with_line l rest) (l ∷ lines)
with_line-Agrees l rest lines (inl e) = inl (rw e refl)
with_line-Agrees l rest lines (inr (inl e)) = inr (inl (rw e refl))
with_line-Agrees l rest lines (inr (inr e)) = inr (inr (rw e refl))

draft_line-Agrees :
    (o : Option ColiveAddon) (months quantity : ℕ) (rest : Result (List AddonLine))
    (lines : List AddonLine)
    → Agrees rest lines
    → Agrees (draft_line o months quantity rest) (quote_line o months quantity lines)
draft_line-Agrees none months quantity rest lines h = inl refl
draft_line-Agrees (some a) months quantity rest lines h = elim (Bool-cases a.is_available) [
  | inl yes' ↦ simp yes' (with_line-Agrees (stay_addon_line months a quantity) rest lines h)
  | inr no' ↦ simp no' (inr (inl refl))
]

pub draft_lines-Agrees :
    (records records' : List ColiveAddon) (months : ℕ) (inputs : List AddonInput)
    → All (λ i. i.quantity ≢ 0 → record_of records' i ≡ record_of records i) inputs
    → Agrees (draft_lines records' months inputs) (quote_lines records months inputs)
unfolding draft_lines quote_lines
draft_lines-Agrees records records' months [] same = inr (inr refl)
draft_lines-Agrees records records' months (i ∷ is) same =
    let ih = draft_lines-Agrees records records' months is same.1 in
    elim (Bool-cases (i.quantity == 0)) [
      | inl skip ↦ rw skip ih
      | inr keep ↦
          rw (keep, same.0 (==-ne i.quantity 0 keep))
            (draft_line-Agrees (record_of records i) months i.quantity _ _ ih)
    ]

-- The inputs that ask for some of an addon.
abbrev asked : List AddonInput → List AddonInput
asked inputs = where_ (λ i. ltb 0 i.quantity) inputs

names_more :
    (i : AddonInput) (is : List AddonInput) (id : ℕ) → names is id ≡ true → names (i ∷ is) id ≡ true
unfolding find
names_more i is id h = ground arith

asked_more :
    (i : AddonInput) (is : List AddonInput) (id : ℕ)
    → names (asked is) id ≡ true
    → names (asked (i ∷ is)) id ≡ true
unfolding find where_
asked_more i is id h = ground arith

abbrev pub IsNamed : List AddonInput → AddonInput → Type 0
IsNamed inputs i =
    i.quantity ≢ 0 → (names inputs i.addon_id ≡ true) × (names (asked inputs) i.addon_id ≡ true)

IsNamed-here : (i : AddonInput) (is : List AddonInput) → IsNamed (i ∷ is) i
unfolding find where_
IsNamed-here i is some' =
    let self = ==_self i.addon_id in
    let keep : ltb 0 i.quantity ≡ true = ground arith in (rw self refl, rw (keep, self) refl)

pub each-IsNamed : (is : List AddonInput) → All (IsNamed is) is
each-IsNamed [] = tt
each-IsNamed (i ∷ is) = (
  IsNamed-here i is,
  imp-All (IsNamed is) is
      (λ j h some'.
        (names_more i is j.addon_id (h some').0, asked_more i is j.addon_id (h some').1))
      (each-IsNamed is),
)

-- The two queries find the same row for an input that both ask for.
pub records_agree :
    (addons : List ColiveAddon) (property : ℕ) (inputs : List AddonInput) (i : AddonInput)
    → IsNamed inputs i
    → i.quantity ≢ 0
    → record_of (addon_records addons property (asked inputs)) i
      ≡ record_of (addon_records addons property inputs) i
records_agree addons property inputs i named some' =
    let (one, two) = named some' in
    find-where_ _ _ addons
    ∙ find_same _ _ addons (λ a. both a one two)
    ∙ sym (find-where_ _ _ addons)
  where
    both :
        (a : ColiveAddon)
        → names inputs i.addon_id ≡ true
        → names (asked inputs) i.addon_id ≡ true
        → ((names (asked inputs) a.id && a.property_id == property && a.is_active)
            && a.id == i.addon_id)
          ≡ ((names inputs a.id && a.property_id == property && a.is_active) && a.id == i.addon_id)
    both a one two = elim (Bool-cases (a.id == i.addon_id)) [
      | inl hit ↦ let same = ==-eq a.id i.addon_id hit in simp (same, one, two) refl
      | inr miss ↦ simp miss (ground arith)
    ]
