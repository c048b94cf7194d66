-- ===== src/Kyc/Age.antt =====
-- The age test of `submitKyc`.
use vibehouse_backend.Common.{
  ℕ, ◌+◌, ◌-◌, ◌<◌, ◌≤◌, ◌≡◌, ◌⊎◌, Bool, ◌&&◌, ◌||◌, ltb, ◌==◌, if◌then◌else◌, arith,
}
use mathlib.Core.Logic.{◌↔◌}

-- A day of the calendar: `getFullYear`, `getMonth`, `getDate`.
pub record Day : Type 0 where
  pub year : ℕ
  pub month : ℕ
  pub date : ℕ

-- `monthDiff < 0 || (monthDiff === 0 && today.getDate() < dob.getDate())`
abbrev pub before_birthday : Day → Day → Bool
before_birthday today dob =
    ltb today.month dob.month || (today.month == dob.month && ltb today.date dob.date)

-- Where the code has a negative number of years, this is 0; both are below 18.
unfoldable pub age : Day → Day → ℕ
age today dob =
    let years = today.year - dob.year in if before_birthday today dob then years - 1 else years

-- The day `b` comes no earlier than the day `a`.
abbrev pub NotBefore : Day → Day → Type 0
NotBefore a b =
    (a.year < b.year)
    ⊎ ((a.year ≡ b.year) × ((a.month < b.month) ⊎ ((a.month ≡ b.month) × (a.date ≤ b.date))))

abbrev pub birthday : ℕ → Day → Day
birthday n dob = record dob { year = dob.year + n }

-- The age is at least 18 exactly from the 18th birthday on.
pub age_lem : (today dob : Day) → (18 ≤ age today dob) ↔ NotBefore (birthday 18 dob) today
unfolding age
age_lem today dob = (λ h. ground arith, λ h. ground arith)
