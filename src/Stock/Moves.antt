-- ===== src/Stock/Moves.antt =====
-- A write that moves units between two columns of a row, and a loop of such writes over the lines
-- of an order: the loops of `reserveAddonInventory`, `releaseAddonInventory`,
-- `finalizeAddonInventory` and `fulfilOrder`.
use vibehouse_backend.Common.{
  ℕ, ◌+◌, ◌-◌, ◌≤◌, ◌≡◌, refl, sym, ap, ◌∙◌, Bool, true, false, ◌&&◌, Option, some, List, [], ◌∷◌,
  map, ◌==◌, if◌then◌else◌, All, map-All, imp-All, map_same, map_twice, update_checked,
  update_checked-map, arith,
}
use vibehouse_backend.Exec.{ok, pure, for_each, ◌>>=◌}
use vibehouse_backend.Tables.{Inventory}
use vibehouse_backend.World.{World, Action, update_inventory}

abbrev pub stocked : List Inventory → World → World
stocked rows w = record w { db = record w.db { inventory = rows } }

update_inventory-stocked :
    (p : Inventory → Bool) (f : Inventory → Option Inventory) (w : World) {rows : List Inventory}
    → update_checked p f w.db.inventory ≡ some rows
    → update_inventory p f w ≡ (ok tt, stocked rows w)
unfolding update_inventory
update_inventory-stocked p f w e = ground arith

-- A write that is not refused as long as the row's `room` lasts, and what it makes of the row.
pub record Move : Type 0 where
  pub write : ℕ → Inventory → Option Inventory
  pub room : Inventory → ℕ
  pub moved : ℕ → Inventory → Inventory
  pub fits : (q : ℕ) (r : Inventory) → q ≤ room r → write q r ≡ some (moved q r)
  pub nothing : (r : Inventory) → moved 0 r ≡ r
  pub twice : (a b : ℕ) (r : Inventory) → moved b (moved a r) ≡ moved (a + b) r
  pub left : (a : ℕ) (r : Inventory) → room (moved a r) ≡ room r - a
  pub product : (a : ℕ) (r : Inventory) → (moved a r).product_id ≡ r.product_id
  pub place : (a : ℕ) (r : Inventory) → (moved a r).property_id ≡ r.property_id

-- A line of an order: whether it is of a commodity, the product and the quantity.
pub record Line : Type 0 where
  pub commodity : Bool
  pub product_id : ℕ
  pub quantity : ℕ

abbrev line : Bool → ℕ → ℕ → Line
line b p q = record { commodity = b; product_id = p; quantity = q }

module _ (property_id : ℕ) where
  abbrev pub asks : Line → Inventory → Bool
  asks l r = l.commodity && r.product_id == l.product_id && r.property_id == property_id

  abbrev asked : Line → Inventory → ℕ
  asked l r = if asks l r then l.quantity else 0

  -- What the lines together ask of a row.
  abbrev pub demand : List Line → Inventory → ℕ
  demand [] r = 0
  demand (l ∷ ls) r = asked l r + demand ls r

  fits_first :
      (l : Line) (ls : List Line) (r : Inventory) (n : ℕ) → demand (l ∷ ls) r ≤ n → asked l r ≤ n
  fits_first l ls r n h = omega arith

  module _ (mv : Move) where
    asked-moved : (l : Line) (q : ℕ) (r : Inventory) → asked l (mv.moved q r) ≡ asked l r
    asked-moved l q r = rw (mv.product q r, mv.place q r) refl

    pub demand-moved :
        (ls : List Line) (q : ℕ) (r : Inventory) → demand ls (mv.moved q r) ≡ demand ls r
    demand-moved [] q r = refl
    demand-moved (l ∷ ls) q r = rw (asked-moved l q r, demand-moved ls q r) refl

    fits_rest :
        (l : Line) (ls : List Line) (r : Inventory)
        → demand (l ∷ ls) r ≤ mv.room r
        → demand ls (mv.moved (asked l r) r) ≤ mv.room (mv.moved (asked l r) r)
    fits_rest l ls r h = rw (demand-moved ls (asked l r) r, mv.left (asked l r) r) (omega arith)

    abbrev pub taken : List Line → Inventory → Inventory
    taken ls r = mv.moved (demand ls r) r

    taken-moved :
        (l : Line) (ls : List Line) (r : Inventory)
        → taken ls (mv.moved (asked l r) r) ≡ taken (l ∷ ls) r
    taken-moved l ls r =
        let d = demand-moved ls (asked l r) r in
        ap (λ n. mv.moved n (mv.moved (asked l r) r)) d ∙ mv.twice (asked l r) (demand ls r) r

    -- The body of the loops, for one line.
    abbrev pub line_step : Line → Action (Unit {0})
    line_step l =
        if l.commodity
        then update_inventory (λ r. r.product_id == l.product_id && r.property_id == property_id)
            (mv.write l.quantity)
        else pure tt

    write_row :
        (b : Bool) (q : ℕ) (r : Inventory)
        → (if b then q else 0) ≤ mv.room r
        → (if b then mv.write q r else some r) ≡ some (mv.moved (if b then q else 0) r)
    write_row true q r h = mv.fits q r h
    write_row false q r h = ap some (sym (mv.nothing r))

    line_step_at :
        (b : Bool) (p q : ℕ) (w : World)
        → All (λ r. asked (line b p q) r ≤ mv.room r) w.db.inventory
        → line_step (line b p q) w
          ≡ (ok tt, stocked (map (λ r. mv.moved (asked (line b p q) r) r) w.db.inventory) w)
    unfolding ◌>>=◌
    line_step_at true p q w h = update_inventory-stocked (asks (line true p q)) (mv.write q) w (
        update_checked-map (asks (line true p q)) (mv.write q)
          (λ r. mv.moved (asked (line true p q) r) r) w.db.inventory
          (imp-All _ w.db.inventory (λ r. write_row (asks (line true p q) r) q r) h))
    line_step_at false p q w h =
        ap (λ rows. (ok tt, stocked rows w))
          (sym (map_same (λ r. mv.moved 0 r) w.db.inventory mv.nothing))

    line_step-stocked :
        (l : Line) (w : World)
        → All (λ r. asked l r ≤ mv.room r) w.db.inventory
        → line_step l w ≡ (ok tt, stocked (map (λ r. mv.moved (asked l r) r) w.db.inventory) w)
    line_step-stocked l w h = line_step_at l.commodity l.product_id l.quantity w h

    -- A loop whose body treats each of its rows as a line, in any world of a kind `G` that does
    -- not depend on the stock.
    module _ {ℓ} {X : Type ℓ} (G : World → Type 0) (as_line : X → Line)
        (body : X → Action (Unit {0}))
        (steps : (x : X) (w : World) → G w → body x w ≡ line_step (as_line x) w)
        (still : (rows : List Inventory) (w : World) → G w → G (stocked rows w)) where
      pub for_each-stocked :
          (xs : List X) (w : World)
          → G w
          → All (λ r. demand (map as_line xs) r ≤ mv.room r) w.db.inventory
          → for_each xs body w ≡ (ok tt, stocked (map (taken (map as_line xs)) w.db.inventory) w)
      unfolding for_each ◌>>=◌
      for_each-stocked [] w g h = rw (map_same (taken []) w.db.inventory mv.nothing) refl
      for_each-stocked (x ∷ xs) w g h =
          let l = as_line x in
          let ls = map as_line xs in
          let sell : Inventory → Inventory = λ r. mv.moved (asked l r) r in
          let rows = w.db.inventory in
          let first =
            steps x w g
            ∙ line_step-stocked l w (imp-All _ rows (λ r. fits_first l ls r (mv.room r)) h) in
          let left = map-All _ sell rows (imp-All _ rows (fits_rest l ls) h) in
          let rest = for_each-stocked xs (stocked (map sell rows) w) (still _ w g) left in
          let joined = map_twice (taken ls) sell (taken (l ∷ ls)) rows (taken-moved l ls) in
          rw (first, rest, joined) refl
