-- ===== src/AdminInventory/Stocktaking.antt =====
-- Restocking, damage and the alert threshold: `restock`, `markDamaged`, `updateStock`.
use vibehouse_backend.Common.{ℕ, Option, none, some, ltb, ◌==◌, find, update_where}
use vibehouse_backend.Exec.{gets, or_throw, throw_if, ◌>>=◌, ◌>>◌, inventory_not_found, bad_request}
use vibehouse_backend.World.{
  Action, Services, all, property, admin, inventory_restock, inventory_damage,
  inventory_config_update, audit_log, update_inventory, set_inventory, invalidate_property_cache,
  send,
}
use vibehouse_backend.Stock.{restocked, damaged}
use vibehouse_backend.AdminInventory.{Actor, stock_of, low_stock}

module _ (env : Services) where
  unfoldable pub restock : ℕ → ℕ → Actor → Action (Unit {0})
  unfolding low_stock ◌>>=◌
  restock product quantity actor = do
    inv ← or_throw (← gets (stock_of product actor)) inventory_not_found
    update_inventory (λ r. r.id == inv.id) (restocked quantity)
    updated ← or_throw (← gets (λ w. find (λ r. r.id == inv.id) w.db.inventory)) inventory_not_found
    send env (audit_log admin actor.admin_id inventory_restock inv.id)
    low_stock env updated
    invalidate_property_cache env (property inv.property_id)
    invalidate_property_cache env all

  unfoldable pub mark_damaged : ℕ → ℕ → Actor → Action (Unit {0})
  unfolding low_stock ◌>>=◌
  mark_damaged product quantity actor = do
    inv ← or_throw (← gets (stock_of product actor)) inventory_not_found
    throw_if (ltb inv.available_stock quantity) bad_request
    update_inventory (λ r. r.id == inv.id) (damaged quantity)
    updated ← or_throw (← gets (λ w. find (λ r. r.id == inv.id) w.db.inventory)) inventory_not_found
    send env (audit_log admin actor.admin_id inventory_damage inv.id)
    low_stock env updated
    invalidate_property_cache env (property inv.property_id)
    invalidate_property_cache env all

  -- `updateStock`: only the threshold can be changed.
  unfoldable pub update_stock : ℕ → Option ℕ → Actor → Action (Unit {0})
  update_stock inventory_id threshold actor = do
    inv ←
        or_throw (← gets (λ w. find (λ r. r.id == inventory_id) w.db.inventory)) inventory_not_found
    set_inventory (
        update_where (λ r. r.id == inventory_id)
          λ r. record r {
            low_stock_threshold = elim threshold [ none ↦ r.low_stock_threshold | some t ↦ t ];
          })
    send env (audit_log admin actor.admin_id inventory_config_update inventory_id)
    invalidate_property_cache env (property inv.property_id)
    invalidate_property_cache env all
