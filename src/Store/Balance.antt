-- ===== src/Store/Balance.antt =====
-- The guest store keeps the stock balance, whether a request returns or throws.
use vibehouse_backend.Common.{ℕ}
use vibehouse_backend.Exec.Keeps.{Keeps}
use vibehouse_backend.World.{Services}
use vibehouse_backend.World.Frame.Stock.{stock_rules}
use vibehouse_backend.Stock.Balance.{AllBalanced, balance_rules}
use vibehouse_backend.Store.Cart.{
  add_to_cart, get_cart, update_cart_item, remove_cart_item, checkout,
}
use vibehouse_backend.Store.Requests.{request_borrowable, request_free_service}

ruleset store_rules = (stock_rules, balance_rules)

pub get_cart-balance : (guest eri : ℕ) → Keeps AllBalanced (get_cart guest eri)
unfolding get_cart
get_cart-balance guest eri = search store_rules depth 40

pub update_cart_item-balance :
    (guest eri item_id quantity : ℕ)
    → Keeps AllBalanced (update_cart_item guest eri item_id quantity)
unfolding update_cart_item
update_cart_item-balance guest eri item_id quantity = search store_rules depth 40

pub remove_cart_item-balance :
    (guest eri item_id : ℕ) → Keeps AllBalanced (remove_cart_item guest eri item_id)
unfolding remove_cart_item
remove_cart_item-balance guest eri item_id = search store_rules depth 40

pub checkout-balance : (guest eri : ℕ) → Keeps AllBalanced (checkout guest eri)
unfolding checkout
checkout-balance guest eri = search store_rules depth 40

module _ (env : Services) where
  pub add_to_cart-balance :
      (guest eri product_id quantity unit_code : ℕ)
      → Keeps AllBalanced (add_to_cart env guest eri product_id quantity unit_code)
  unfolding add_to_cart
  add_to_cart-balance guest eri product_id quantity unit_code = search store_rules depth 40

  pub request_borrowable-balance :
      (guest eri product_id : ℕ) → Keeps AllBalanced (request_borrowable env guest eri product_id)
  unfolding request_borrowable
  request_borrowable-balance guest eri product_id = search store_rules depth 40

  pub request_free_service-balance :
      (guest eri product_id : ℕ) → Keeps AllBalanced (request_free_service env guest eri product_id)
  unfolding request_free_service
  request_free_service-balance guest eri product_id = search store_rules depth 40
