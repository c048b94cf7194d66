-- ===== src/AdminInventory/Products.antt =====
-- The product catalog: `createProduct`, `updateProduct`, `deleteProduct`. Names and descriptions
-- are left out.
use vibehouse_backend.Common.{
  ℕ, Bool, true, Option, [], ◌∷◌, ◌++◌, ◌==◌, if◌then◌else◌, find, where_, update_where,
  delete_where, length, ltb,
}
use vibehouse_backend.Common.Int.{pos}
use vibehouse_backend.Exec.{
  pure, gets, or_throw, throw_if, ◌>>=◌, ◌>>◌, property_not_found, product_not_found, conflict,
}
use vibehouse_backend.Tables.{Category, is_service}
use vibehouse_backend.World.{
  Action, Services, all, property, admin, product_create, product_update, product_delete, audit_log,
  set_inventory, set_products, draw_uuid, invalidate_property_cache, send,
}
use vibehouse_backend.AdminInventory.{Actor, given}

module _ (env : Services) where
  -- The inventory row of a new product; a service has none.
  open_stock : (product property_id stock threshold : ℕ) → Category → Action (Unit {0})
  unfolding ◌>>=◌
  open_stock product property_id stock threshold category =
      if is_service category then pure tt else do
        id ← draw_uuid env
        set_inventory λ rows.
            rows
            ++ record {
              id = id;
              property_id = property_id;
              product_id = product;
              total_stock = pos stock;
              available_stock = stock;
              reserved_stock = 0;
              sold_count = 0;
              damaged_count = 0;
              borrowed_out_count = 0;
              low_stock_threshold = threshold;
            }
              ∷ []

  unfoldable pub create_product :
      (property_id : ℕ) → Category → (base_price : ℕ) → Option ℕ → Option ℕ → Actor → Action ℕ
  unfolding open_stock ◌>>=◌
  create_product property_id category base_price initial_stock low_stock_threshold actor = do
    or_throw (← gets (λ w. find (λ p. p == property_id) w.db.properties)) property_not_found
    id ← draw_uuid env
    set_products λ rows.
        rows
        ++ record {
          id = id;
          property_id = property_id;
          category = category;
          base_price = base_price;
          is_active = true;
        }
          ∷ []
    open_stock id property_id (given initial_stock 0) (given low_stock_threshold 5) category
    send env (audit_log admin actor.admin_id product_create id)
    invalidate_property_cache env (property property_id)
    pure id

  unfoldable pub update_product : ℕ → Option ℕ → Option Bool → Actor → Action (Unit {0})
  unfolding ◌>>=◌
  update_product id base_price is_active actor = do
    existing ← or_throw (← gets (λ w. find (λ p. p.id == id) w.db.products)) product_not_found
    set_products (
        update_where (λ p. p.id == id)
          λ p. record p {
            base_price = given base_price p.base_price;
            is_active = given is_active p.is_active;
          })
    send env (audit_log admin actor.admin_id product_update id)
    invalidate_property_cache env (property existing.property_id)
    invalidate_property_cache env all

  unfoldable pub delete_product : ℕ → Actor → Action (Unit {0})
  unfolding ◌>>=◌
  delete_product id actor = do
    product ← or_throw (← gets (λ w. find (λ p. p.id == id) w.db.products)) product_not_found
    ordered ← gets (λ w. where_ (λ i. i.product_id == id) w.db.items)
    throw_if (ltb 0 (length ordered)) conflict
    set_inventory (delete_where (λ r. r.product_id == id))
    set_products (delete_where (λ p. p.id == id))
    send env (audit_log admin actor.admin_id product_delete id)
    invalidate_property_cache env (property product.property_id)
    invalidate_property_cache env all
