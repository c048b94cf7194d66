-- ===== src/Stock.antt =====
-- The writes to a row of `inventory`, each the `data: { … }` of the update that the services make.
-- `none` is the refusal of a CHECK constraint (prisma/migrations/20260414000000).
pub mod Balance
pub mod Moves
use vibehouse_backend.Common.{ℕ, ◌+◌, ◌-◌, Bool, Option, none, some, ltb, if◌then◌else◌}
use vibehouse_backend.Common.Int.{pos, ◌+ℤ◌, ◌-ℤ◌}
use vibehouse_backend.Tables.{Inventory}

-- `{ decrement: q }` of a column under a constraint `>= 0`.
abbrev pub decrement : ℕ → ℕ → Option ℕ
decrement column q = if ltb column q then none else some (column - q)

abbrev written : Option ℕ → (ℕ → Inventory) → Option Inventory
written none f = none
written (some n) f = some (f n)

module _ (q : ℕ) (r : Inventory) where
  unfoldable pub restocked : Option Inventory
  restocked =
      some
        (record r { total_stock = r.total_stock +ℤ pos q; available_stock = r.available_stock + q })

  unfoldable pub damaged : Option Inventory
  damaged = written (decrement r.available_stock q) λ left. record r {
    available_stock = left;
    total_stock = r.total_stock -ℤ pos q;
    damaged_count = r.damaged_count + q;
  }

  -- `reserveAddonInventory`
  unfoldable pub reserved : Option Inventory
  reserved =
      written (decrement r.available_stock q)
        λ left. record r { available_stock = left; reserved_stock = r.reserved_stock + q }

  -- `releaseAddonInventory`
  unfoldable pub released : Option Inventory
  released =
      written (decrement r.reserved_stock q)
        λ left. record r { available_stock = r.available_stock + q; reserved_stock = left }

  -- `finalizeAddonInventory`
  unfoldable pub finalized : Option Inventory
  finalized =
      written (decrement r.reserved_stock q)
        λ left. record r { reserved_stock = left; sold_count = r.sold_count + q }

  -- The decrement of `fulfilOrder`.
  unfoldable pub sold : Option Inventory
  sold =
      written (decrement r.available_stock q)
        λ left. record r { available_stock = left; sold_count = r.sold_count + q }

  -- A loan of a borrowable or an issue of a returnable.
  unfoldable pub lent : Option Inventory
  lent =
      written (decrement r.available_stock q)
        λ left. record r { available_stock = left; borrowed_out_count = r.borrowed_out_count + q }

  -- A return in good condition.
  unfoldable pub given_back : Option Inventory
  given_back =
      written (decrement r.borrowed_out_count q)
        λ left. record r { borrowed_out_count = left; available_stock = r.available_stock + q }

  -- A return in another condition, or a loss.
  unfoldable pub written_off : Option Inventory
  written_off = written (decrement r.borrowed_out_count q) λ left. record r {
    borrowed_out_count = left;
    damaged_count = r.damaged_count + q;
    total_stock = r.total_stock -ℤ pos q;
  }
