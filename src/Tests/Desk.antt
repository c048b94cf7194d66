-- ===== src/Tests/Desk.antt =====
-- The desk and the cache, at concrete worlds.
use vibehouse_backend.Common.{◌≡◌, ◌≤◌, refl, none, some, List, [], ◌∷◌, find, arith}
use vibehouse_backend.Tables.{Item, issued, paid, pre_arrival}
use vibehouse_backend.World.{World, property, catalog, invalidate_property_cache}
use vibehouse_backend.World.Invalidation.{cached, of_catalog, invalidate_property_cache_lem}
use vibehouse_backend.AdminInventory.Returnables.{good}
use vibehouse_backend.AdminInventory.Entitlement.{handed_out}
use vibehouse_backend.System.Requests.{Request}
use vibehouse_backend.System.{serve}
use vibehouse_backend.System.Entitled.{issues, takes_back, serve-Entitled}
use vibehouse_backend.Tests.Data.{env, start, hotel}
use vibehouse_backend.Tests.System.{desk}

abbrev bedding_line : Item
bedding_line = record {
  id = 71;
  addon_order_id = 81;
  product_id = 13;
  quantity = 1;
  unit_price = 20000;
  total_price = 20000;
  unit_code = none;
}

-- One set of bedding was paid for and handed out.
abbrev bedding_world : World
bedding_world = record start {
  db = record hotel {
    orders =
        record {
          id = 81;
          ezee_reservation_id = 31;
          guest_id = 7;
          payment_id = some 91;
          phase = pre_arrival;
          status = paid;
        }
        ∷ [];
    items = bedding_line ∷ [];
    issued =
        record {
          id = 95;
          inventory_id = 23;
          addon_order_item_id = 71;
          ezee_reservation_id = 31;
          guest_id = 7;
          quantity = 1;
          status = issued;
        }
        ∷ [];
  };
}

-- The desk tries to hand out a second set, before and after the first has come back.
abbrev issues_again : List Request
issues_again =
    Request.returnable_issue 13 7 31 71 none desk
    ∷ Request.returnable_verify_return 95 good desk
    ∷ Request.returnable_issue 13 7 31 71 none desk
    ∷ []

serve-Entitled_example : handed_out 71 (serve env 1 bedding_world issues_again).db.issued ≤ 1
unfolding find
serve-Entitled_example =
    serve-Entitled env 1 71 bedding_line bedding_world issues_again
      (issues, (takes_back, (issues, tt))) refl (omega arith)

-- The catalog of property 1 was cached.
abbrev cached_world : World
cached_world = record start { cache = (catalog (property 1), 11 ∷ []) ∷ [] }

invalidate_property_cache_lem_example :
    cached (catalog (property 1)) (invalidate_property_cache env (property 1) cached_world).1 ≡ none
invalidate_property_cache_lem_example =
    invalidate_property_cache_lem env (property 1) (catalog (property 1)) cached_world of_catalog
      refl
