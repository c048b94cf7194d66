-- ===== src/Stock/Balance.antt =====
-- The balance of a row: every unit of `total_stock` is available, reserved, sold or lent.
use vibehouse_backend.Common.{ℕ, ◌+◌, Bool, Option, some, ◌≡◌, All, update_checked-All}
use vibehouse_backend.Common.Int.{pos, int_laws}
use vibehouse_backend.Exec.Keeps.{Keeps}
use vibehouse_backend.Tables.{Inventory}
use vibehouse_backend.World.{World, update_inventory}
use vibehouse_backend.World.Frame.Stock.{Stock, Stock-update_inventory}
use vibehouse_backend.Stock.{
  restocked, damaged, reserved, released, finalized, sold, lent, given_back, written_off,
}

abbrev pub IsBalanced : Inventory → Type 0
IsBalanced r =
    r.total_stock ≡ pos (r.available_stock + r.reserved_stock + r.sold_count + r.borrowed_out_count)

-- Every row of the table balances.
abbrev pub AllBalanced : World → Type 0
AllBalanced = Stock (All IsBalanced)

-- What a write must keep.
abbrev pub KeepsBalance : (Inventory → Option Inventory) → Type 0
KeepsBalance f = (r r' : Inventory) → f r ≡ some r' → IsBalanced r → IsBalanced r'

module _ (q : ℕ) where
  pub restocked-balance : KeepsBalance (restocked q)
  unfolding restocked
  restocked-balance r r' e h = grind int_laws

  pub damaged-balance : KeepsBalance (damaged q)
  unfolding damaged
  damaged-balance r r' e h = grind int_laws

  pub reserved-balance : KeepsBalance (reserved q)
  unfolding reserved
  reserved-balance r r' e h = grind int_laws

  pub released-balance : KeepsBalance (released q)
  unfolding released
  released-balance r r' e h = grind int_laws

  pub finalized-balance : KeepsBalance (finalized q)
  unfolding finalized
  finalized-balance r r' e h = grind int_laws

  pub sold-balance : KeepsBalance (sold q)
  unfolding sold
  sold-balance r r' e h = grind int_laws

  pub lent-balance : KeepsBalance (lent q)
  unfolding lent
  lent-balance r r' e h = grind int_laws

  pub given_back-balance : KeepsBalance (given_back q)
  unfolding given_back
  given_back-balance r r' e h = grind int_laws

  pub written_off-balance : KeepsBalance (written_off q)
  unfolding written_off
  written_off-balance r r' e h = grind int_laws

-- A write that keeps each row's balance keeps the table's.
pub update-AllBalanced :
    (p : Inventory → Bool) (f : Inventory → Option Inventory)
    → KeepsBalance f
    → Keeps AllBalanced (update_inventory p f)
update-AllBalanced p f keep =
    Stock-update_inventory p f λ rows rows' e h. update_checked-All IsBalanced p f rows keep e h

pub ruleset balance_rules = (
  update-AllBalanced, restocked-balance, damaged-balance, reserved-balance, released-balance,
  finalized-balance, sold-balance, lent-balance, given_back-balance, written_off-balance,
)
