-- ===== src/System/Entitled.antt =====
-- What the desk hands out for the lines of paid orders, over whole runs.
use vibehouse_backend.Common.{ℕ, ◌≤◌, ◌≡◌, Bool, Option, some, List, [], ◌∷◌, All, ◌==◌, find}
use vibehouse_backend.Exec.Keeps.{Keeps}
use vibehouse_backend.Tables.{Category, Item}
use vibehouse_backend.World.{World, Services}
use vibehouse_backend.World.Frame.Lines.{lines_rules}
use vibehouse_backend.AdminInventory.{Actor}
use vibehouse_backend.AdminInventory.Stocktaking.{restock, mark_damaged, update_stock}
use vibehouse_backend.AdminInventory.Products.{create_product, update_product, delete_product}
use vibehouse_backend.AdminInventory.Loans.{checkout_borrowable, verify_return}
use vibehouse_backend.AdminInventory.Returnables.{Condition}
use vibehouse_backend.AdminInventory.Entitlement.{
  Entitled, handed_out, returnable_issue-Entitled, returnable_verify_return-Entitled,
}
use vibehouse_backend.System.Requests.{Request}
use vibehouse_backend.System.{handle, serve}

-- The requests of the desk about products and stock.
pub data FromDesk : Request → Type 0 where
  restocks : {p q : ℕ} {a : Actor} → FromDesk (Request.restock p q a)
  damages : {p q : ℕ} {a : Actor} → FromDesk (Request.mark_damaged p q a)
  updates : {i : ℕ} {t : Option ℕ} {a : Actor} → FromDesk (Request.update_stock i t a)
  creates :
      {p price : ℕ} {c : Category} {s t : Option ℕ} {a : Actor}
      → FromDesk (Request.create_product p c price s t a)
  edits :
      {i : ℕ} {p : Option ℕ} {b : Option Bool} {a : Actor}
      → FromDesk (Request.update_product i p b a)
  deletes : {i : ℕ} {a : Actor} → FromDesk (Request.delete_product i a)
  lends : {p g e : ℕ} {a : Actor} → FromDesk (Request.checkout_borrowable p g e a)
  collects : {i : ℕ} {a : Actor} → FromDesk (Request.verify_return i a)
  issues :
      {p g e i : ℕ} {q : Option ℕ} {a : Actor} → FromDesk (Request.returnable_issue p g e i q a)
  takes_back :
      {i : ℕ} {c : Condition} {a : Actor} → FromDesk (Request.returnable_verify_return i c a)

module _ (env : Services) (default_property line : ℕ) (i : Item) where
  handle-Entitled :
      (r : Request) → FromDesk r → Keeps (Entitled line i) (handle env default_property r)
  unfolding handle restock mark_damaged update_stock create_product update_product delete_product
      checkout_borrowable verify_return
  handle-Entitled r restocks = search lines_rules depth 40
  handle-Entitled r damages = search lines_rules depth 40
  handle-Entitled r updates = search lines_rules depth 40
  handle-Entitled r creates = search lines_rules depth 40
  handle-Entitled r edits = search lines_rules depth 40
  handle-Entitled r deletes = search lines_rules depth 40
  handle-Entitled r lends = search lines_rules depth 40
  handle-Entitled r collects = search lines_rules depth 40
  handle-Entitled r issues = search (lines_rules, returnable_issue-Entitled)
  handle-Entitled r takes_back = search (lines_rules, returnable_verify_return-Entitled)

  run-Entitled :
      (w : World) (rs : List Request)
      → All FromDesk rs
      → Entitled line i w
      → Entitled line i (serve env default_property w rs)
  unfolding serve
  run-Entitled w [] desk h = h
  run-Entitled w (r ∷ rs) desk h =
      run-Entitled (handle env default_property r w).1 rs desk.1
        ((handle-Entitled r desk.0).after w h)

  -- Where an order's line is in the table and no more units were handed out for it than it is for,
  -- then this is so after any sequence of the desk's requests about products and stock, whichever of
  -- them throw: the quantities of all the line's hand-outs, returned or not, add up to at most the
  -- line's own.
  pub serve-Entitled :
      (w : World) (rs : List Request)
      → All FromDesk rs
      → find (λ j. j.id == line) w.db.items ≡ some i
      → handed_out line w.db.issued ≤ i.quantity
      → handed_out line (serve env default_property w rs).db.issued ≤ i.quantity
  serve-Entitled w rs desk there within =
      (run-Entitled w rs desk (record { holds = (there, within) })).holds.1
