-- ===== src/AdminInventory.antt =====
-- Stock management, the catalog, loans and returns at the desk
-- (src/admin/inventory/admin-inventory.service.ts). A handler's answer is left out where it only
-- repeats the row that it wrote. `actor` is the admin's id and, unless the admin sees every
-- property, the property.
pub mod Stocktaking
pub mod Products
pub mod Loans
pub mod Returnables
pub mod Entitlement
pub mod Forecast
pub mod Balance
use vibehouse_backend.Common.{
  ℕ, Bool, true, ◌&&◌, Option, none, some, leb, ◌==◌, if◌then◌else◌, find,
}
use vibehouse_backend.Exec.{pure}
use vibehouse_backend.Tables.{Inventory}
use vibehouse_backend.World.{World, Action, Services, low_stock_alert, send}

pub record Actor : Type 0 where
  pub admin_id : ℕ
  pub property_id : Option ℕ

-- `if (actor.property_id) where.property_id = actor.property_id`
abbrev pub sees : Option ℕ → ℕ → Bool
sees none p = true
sees (some q) p = p == q

abbrev pub stock_of : ℕ → Actor → World → Option Inventory
stock_of product actor w =
    find (λ r. r.product_id == product && sees actor.property_id r.property_id) w.db.inventory

-- The desk works on one property, the default one for an owner.
abbrev pub desk : ℕ → Actor → ℕ
desk default actor = elim actor.property_id [ none ↦ default | some p ↦ p ]

-- `value ?? default`, for a field that may be absent.
abbrev pub given {ℓ} : {A : Type ℓ} → Option A → A → A
given none d = d
given (some a) d = a

module _ (env : Services) where
  -- The alert that a handler sends when the row that it has written is low.
  pub low_stock : Inventory → Action (Unit {0})
  low_stock r =
      if leb r.available_stock r.low_stock_threshold
      then send env
          (low_stock_alert r.property_id r.product_id r.available_stock r.low_stock_threshold)
      else pure tt
