-- ===== src/AdminInventory/Balance.antt =====
-- Every handler of the desk keeps the stock balance, whether it returns or throws.
use vibehouse_backend.Common.{
  ℕ, Bool, Option, List, [], ◌∷◌, ◌++◌, All, append-All, delete_where, update_where,
  delete_where-All, update_where-All, arith,
}
use vibehouse_backend.Common.Int.{pos}
use vibehouse_backend.Exec.Keeps.{Keeps}
use vibehouse_backend.Tables.{Inventory, Category}
use vibehouse_backend.World.{Services}
use vibehouse_backend.World.Frame.Stock.{stock_rules, Stock-set_inventory}
use vibehouse_backend.Stock.Balance.{AllBalanced, IsBalanced, KeepsBalance, balance_rules}
use vibehouse_backend.AdminInventory.{Actor}
use vibehouse_backend.AdminInventory.Stocktaking.{restock, mark_damaged, update_stock}
use vibehouse_backend.AdminInventory.Products.{create_product, update_product, delete_product}
use vibehouse_backend.AdminInventory.Loans.{checkout_borrowable, verify_return}
use vibehouse_backend.AdminInventory.Returnables.{
  Condition, good, damaged_item, lost_item, stock_after, returnable_issue, returnable_verify_return,
}

new_row-balance :
    (r : Inventory) (rows : List Inventory)
    → IsBalanced r
    → All IsBalanced rows
    → All IsBalanced (rows ++ r ∷ [])
new_row-balance r rows fits h = append-All IsBalanced rows (r ∷ []) h (fits, tt)

-- What a new product starts with.
opening-balance :
    (id property_id product stock threshold : ℕ)
    → IsBalanced (record {
      id = id;
      property_id = property_id;
      product_id = product;
      total_stock = pos stock;
      available_stock = stock;
      reserved_stock = 0;
      sold_count = 0;
      damaged_count = 0;
      borrowed_out_count = 0;
      low_stock_threshold = threshold;
    })
opening-balance id property_id product stock threshold = ground arith

stock_after-balance : (c : Condition) (q : ℕ) → KeepsBalance (stock_after c q)
stock_after-balance good q = search balance_rules
stock_after-balance damaged_item q = search balance_rules
stock_after-balance lost_item q = search balance_rules

threshold-balance :
    (p : Inventory → Bool) (f : Inventory → ℕ) (rows : List Inventory)
    → All IsBalanced rows
    → All IsBalanced (update_where p (λ r. record r { low_stock_threshold = f r }) rows)
threshold-balance p f rows h = update_where-All IsBalanced p _ rows (λ x e b. b) h

deletion-balance :
    (p : Inventory → Bool) (rows : List Inventory)
    → All IsBalanced rows
    → All IsBalanced (delete_where p rows)
deletion-balance p rows h = delete_where-All IsBalanced p rows h

ruleset desk_rules = (
  stock_rules, balance_rules, Stock-set_inventory, new_row-balance, opening-balance,
  stock_after-balance, threshold-balance, deletion-balance,
)

module _ (env : Services) where
  pub restock-balance :
      (product quantity : ℕ) (actor : Actor)
      → Keeps AllBalanced (restock env product quantity actor)
  unfolding restock
  restock-balance product quantity actor = search desk_rules depth 40

  pub mark_damaged-balance :
      (product quantity : ℕ) (actor : Actor)
      → Keeps AllBalanced (mark_damaged env product quantity actor)
  unfolding mark_damaged
  mark_damaged-balance product quantity actor = search desk_rules depth 40

  pub update_stock-balance :
      (inventory_id : ℕ) (threshold : Option ℕ) (actor : Actor)
      → Keeps AllBalanced (update_stock env inventory_id threshold actor)
  unfolding update_stock
  update_stock-balance inventory_id threshold actor = search desk_rules depth 40

  pub create_product-balance :
      (property_id : ℕ) (category : Category) (price : ℕ) (stock threshold : Option ℕ)
      (actor : Actor)
      → Keeps AllBalanced (create_product env property_id category price stock threshold actor)
  unfolding create_product
  create_product-balance property_id category price stock threshold actor =
      search desk_rules depth 40

  pub update_product-balance :
      (id : ℕ) (price : Option ℕ) (is_active : Option Bool) (actor : Actor)
      → Keeps AllBalanced (update_product env id price is_active actor)
  unfolding update_product
  update_product-balance id price is_active actor = search desk_rules depth 40

  pub delete_product-balance :
      (id : ℕ) (actor : Actor) → Keeps AllBalanced (delete_product env id actor)
  unfolding delete_product
  delete_product-balance id actor = search desk_rules depth 40

  pub checkout_borrowable-balance :
      (product guest eri : ℕ) (actor : Actor)
      → Keeps AllBalanced (checkout_borrowable env product guest eri actor)
  unfolding checkout_borrowable
  checkout_borrowable-balance product guest eri actor = search desk_rules depth 40

  pub verify_return-balance :
      (id : ℕ) (actor : Actor) → Keeps AllBalanced (verify_return env id actor)
  unfolding verify_return
  verify_return-balance id actor = search desk_rules depth 40

  pub returnable_issue-balance :
      (default_property product guest eri item : ℕ) (quantity : Option ℕ) (actor : Actor)
      → Keeps AllBalanced
          (returnable_issue env default_property product guest eri item quantity actor)
  unfolding returnable_issue
  returnable_issue-balance default_property product guest eri item quantity actor =
      search desk_rules depth 40

  pub returnable_verify_return-balance :
      (default_property id : ℕ) (condition : Condition) (actor : Actor)
      → Keeps AllBalanced (returnable_verify_return env default_property id condition actor)
  unfolding returnable_verify_return
  returnable_verify_return-balance default_property id condition actor = search desk_rules depth 40
