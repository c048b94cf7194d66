-- ===== src/Booking/Addons/Reserve.antt =====
-- The addons of a booking: reserved when it is opened, then released or finalized.
use vibehouse_backend.Common.{
  ℕ, ◌+◌, ◌-◌, ◌≤◌, ◌≡◌, refl, ap, ◌∙◌, some, List, map, All, map-All, imp-All, map_undo, map_twice,
  arith,
}
use vibehouse_backend.Exec.{ok, for_each, ◌>>=◌}
use vibehouse_backend.Exec.Runs.{bind-ok}
use vibehouse_backend.Tables.{Inventory, Item, is_commodity}
use vibehouse_backend.World.{World}
use vibehouse_backend.Stock.{reserved, released, finalized}
use vibehouse_backend.Stock.Moves.{Move, Line, demand, demand-moved, stocked, for_each-stocked}
use vibehouse_backend.Booking.Addons.{ValidatedAddon, category_is, reserve_addon, move_item}

abbrev columns : Inventory → ℕ → ℕ → ℕ → Inventory
columns r available reserved sold = record r {
  available_stock = available;
  reserved_stock = reserved;
  sold_count = sold;
}

columns_eq :
    (r : Inventory) {a a' b b' c c' : ℕ}
    → a ≡ a'
    → b ≡ b'
    → c ≡ c'
    → columns r a b c ≡ columns r a' b' c'
columns_eq r p q s = cc

abbrev held : ℕ → Inventory → Inventory
held q r = columns r (r.available_stock - q) (r.reserved_stock + q) r.sold_count

abbrev freed : ℕ → Inventory → Inventory
freed q r = columns r (r.available_stock + q) (r.reserved_stock - q) r.sold_count

abbrev closed : ℕ → Inventory → Inventory
closed q r = columns r r.available_stock (r.reserved_stock - q) (r.sold_count + q)

-- A row after a sale of `q` units.
abbrev pub sold_off : ℕ → Inventory → Inventory
sold_off q r = columns r (r.available_stock - q) r.reserved_stock (r.sold_count + q)

reserved-held : (q : ℕ) (r : Inventory) → q ≤ r.available_stock → reserved q r ≡ some (held q r)
unfolding reserved
reserved-held q r h = ground arith

released-freed : (q : ℕ) (r : Inventory) → q ≤ r.reserved_stock → released q r ≡ some (freed q r)
unfolding released
released-freed q r h = ground arith

finalized-closed :
    (q : ℕ) (r : Inventory) → q ≤ r.reserved_stock → finalized q r ≡ some (closed q r)
unfolding finalized
finalized-closed q r h = ground arith

abbrev reservation : Move
reservation = record {
  write = reserved;
  room = λ r. r.available_stock;
  moved = held;
  fits = reserved-held;
  nothing = λ r. columns_eq r (omega arith) (omega arith) refl;
  twice = λ a b r. columns_eq r (omega arith) (omega arith) refl;
  left = λ a r. refl;
  product = λ a r. refl;
  place = λ a r. refl;
}

abbrev release : Move
release = record {
  write = released;
  room = λ r. r.reserved_stock;
  moved = freed;
  fits = released-freed;
  nothing = λ r. columns_eq r (omega arith) (omega arith) refl;
  twice = λ a b r. columns_eq r (omega arith) (omega arith) refl;
  left = λ a r. refl;
  product = λ a r. refl;
  place = λ a r. refl;
}

abbrev finalization : Move
finalization = record {
  write = finalized;
  room = λ r. r.reserved_stock;
  moved = closed;
  fits = finalized-closed;
  nothing = λ r. columns_eq r refl (omega arith) (omega arith);
  twice = λ a b r. columns_eq r refl (omega arith) (omega arith);
  left = λ a r. refl;
  product = λ a r. refl;
  place = λ a r. refl;
}

abbrev pub addon_line : ValidatedAddon → Line
addon_line a = record {
  commodity = is_commodity a.product.category;
  product_id = a.product.id;
  quantity = a.quantity;
}

-- An item's line, with the category that its product has in `w`.
abbrev pub item_line : World → Item → Line
item_line w i = record {
  commodity = category_is is_commodity i.product_id w;
  product_id = i.product_id;
  quantity = i.quantity;
}

module _ (property_id : ℕ) where
  reserve_run :
      (addons : List ValidatedAddon) (w : World)
      → All (λ r. demand property_id (map addon_line addons) r ≤ r.available_stock) w.db.inventory
      → for_each addons (reserve_addon property_id) w ≡ (
        ok tt,
        stocked (map (λ r. held (demand property_id (map addon_line addons) r) r) w.db.inventory) w,
      )
  unfolding reserve_addon
  reserve_run addons w h =
      for_each-stocked property_id reservation (λ _. Unit) addon_line (reserve_addon property_id)
        (λ x w g. refl) (λ rows w g. tt) addons w tt h

  move_run :
      (mv : Move) (items : List Item) (w₀ w : World)
      → w.db.products ≡ w₀.db.products
      → All (λ r. demand property_id (map (item_line w₀) items) r ≤ mv.room r) w.db.inventory
      → for_each items (move_item mv.write property_id) w ≡ (
        ok tt,
        stocked
            (map (λ r. mv.moved (demand property_id (map (item_line w₀) items) r) r) w.db.inventory)
            w,
      )
  unfolding move_item
  move_run mv items w₀ w g h =
      for_each-stocked property_id mv (λ v. v.db.products ≡ w₀.db.products) (item_line w₀)
        (move_item mv.write property_id) (λ x v g. rw (← g) refl) (λ rows v g. g) items w g h

  -- `items` are the lines that were written for `addons`, and the stock has what they ask.
  abbrev pub Reservable : List ValidatedAddon → List Item → World → Type 0
  Reservable addons items w =
      (map addon_line addons ≡ map (item_line w) items)
      × All (λ r. demand property_id (map (item_line w) items) r ≤ r.available_stock) w.db.inventory

  module _ (addons : List ValidatedAddon) (items : List Item) (w : World)
      (h : Reservable addons items w) where
    abbrev pub need : Inventory → ℕ
    need r = demand property_id (map (item_line w) items) r

    abbrev reserved_world : World
    reserved_world = stocked (map (λ r. held (need r) r) w.db.inventory) w

    reserved_run : for_each addons (reserve_addon property_id) w ≡ (ok tt, reserved_world)
    reserved_run = let (same, enough) = h in rw (← same) (reserve_run addons w (rw same enough))

    need-held : (r : Inventory) → need (held (need r) r) ≡ need r
    need-held r = demand-moved property_id reservation (map (item_line w) items) (need r) r

    need_covered :
        (r : Inventory)
        → need r ≤ r.available_stock
        → need (held (need r) r) ≤ r.reserved_stock + need r
    need_covered r enough = rw (need-held r) (omega arith)

    covered : All (λ r. need r ≤ r.reserved_stock) reserved_world.db.inventory
    covered =
        map-All _ (λ r. held (need r) r) w.db.inventory (imp-All _ w.db.inventory need_covered h.1)

    freed-held :
        (r : Inventory)
        → need r ≤ r.available_stock
        → freed (need (held (need r) r)) (held (need r) r) ≡ r
    freed-held r enough = rw (need-held r) (columns_eq r (omega arith) (omega arith) refl)

    closed-held :
        (r : Inventory) → closed (need (held (need r) r)) (held (need r) r) ≡ sold_off (need r) r
    closed-held r = rw (need-held r) (columns_eq r refl (omega arith) refl)

    -- A round trip of the two loops: what `reserveAddonInventory` sets aside for the addons of a
    -- booking, `releaseAddonInventory` gives back for the order's items, where the items are the
    -- lines that were written for the addons and each stock row has what they ask of it. Both loops
    -- run to the end, and the world is as it was.
    pub reserve-release :
        (for_each addons (reserve_addon property_id) >>= λ _.
        for_each items (move_item released property_id))
          w
        ≡ (ok tt, w)
    reserve-release =
        bind-ok (for_each addons (reserve_addon property_id))
          (λ _. for_each items (move_item released property_id)) reserved_run
        ∙ move_run release items w reserved_world refl covered
        ∙ ap (λ rows. (ok tt, stocked rows w))
            (map_undo (λ r. freed (need r) r) (λ r. held (need r) r) w.db.inventory
              (imp-All _ w.db.inventory freed-held h.1))

    -- Reserving for the addons of a booking and then finalizing for the order's items, where the
    -- items are the lines that were written for the addons and each stock row has what they ask of
    -- it, sells what they ask: both loops run to the end, each row's available units go down and its
    -- sold units up by that number, its reserved units are as before, and nothing else changes.
    pub reserve-finalize :
        (for_each addons (reserve_addon property_id) >>= λ _.
        for_each items (move_item finalized property_id))
          w
        ≡ (ok tt, stocked (map (λ r. sold_off (need r) r) w.db.inventory) w)
    reserve-finalize =
        bind-ok (for_each addons (reserve_addon property_id))
          (λ _. for_each items (move_item finalized property_id)) reserved_run
        ∙ move_run finalization items w reserved_world refl covered
        ∙ ap (λ rows. (ok tt, stocked rows w))
            (map_twice (λ r. closed (need r) r) (λ r. held (need r) r) (λ r. sold_off (need r) r)
              w.db.inventory closed-held)
