-- ===== src/World/Frame/Lines.antt =====
-- Properties of the tables `addon_order_items` and `returnable_checkouts` together, under the actions
-- that the desk's handlers are built from: all but `set_issued` leave both as they are.
use vibehouse_backend.Common.{Bool, List, Option, Option-cases, inl, inr, update_checked}
use vibehouse_backend.Exec.{Result, ok, err}
use vibehouse_backend.Exec.Keeps.{Keeps, keeps_rules}
use vibehouse_backend.Tables.{Product, Inventory, Item, Borrowed, Issued}
use vibehouse_backend.World.{
  World, Action, Services, Scope, Message, transaction, update_inventory, set_products,
  set_inventory, set_borrowed, set_issued, draw_uuid, invalidate_property_cache, send,
}

-- `Q` holds of the two tables.
pub record Lines (Q : List Item → List Issued → Type 0) (w : World) : Type 0 where
  pub holds : Q w.db.items w.db.issued

module _ {Q : List Item → List Issued → Type 0} where
  pub Lines-set_products : (f : List Product → List Product) → Keeps (Lines Q) (set_products f)
  unfolding set_products
  Lines-set_products f = record { after = λ s h. record { holds = h.holds } }

  pub Lines-set_inventory :
      (f : List Inventory → List Inventory) → Keeps (Lines Q) (set_inventory f)
  unfolding set_inventory
  Lines-set_inventory f = record { after = λ s h. record { holds = h.holds } }

  pub Lines-set_borrowed : (f : List Borrowed → List Borrowed) → Keeps (Lines Q) (set_borrowed f)
  unfolding set_borrowed
  Lines-set_borrowed f = record { after = λ s h. record { holds = h.holds } }

  pub Lines-draw_uuid : (env : Services) → Keeps (Lines Q) (draw_uuid env)
  unfolding draw_uuid
  Lines-draw_uuid env = record { after = λ s h. record { holds = h.holds } }

  pub Lines-invalidate_property_cache :
      (env : Services) (s : Scope) → Keeps (Lines Q) (invalidate_property_cache env s)
  unfolding invalidate_property_cache
  Lines-invalidate_property_cache env s = record { after = λ w h. record { holds = h.holds } }

  pub Lines-send : (env : Services) (m : Message) → Keeps (Lines Q) (send env m)
  unfolding send
  Lines-send env m = record { after = λ s h. record { holds = h.holds } }

  pub Lines-update_inventory :
      (p : Inventory → Bool) (f : Inventory → Option Inventory)
      → Keeps (Lines Q) (update_inventory p f)
  unfolding update_inventory
  Lines-update_inventory p f = record {
    after = λ s h. elim (Option-cases (update_checked p f s.db.inventory)) [
      | inl refused ↦ rw (refused, update_inventory) h
      | inr (rows, written) ↦ rw (written, update_inventory) (record { holds = h.holds })
    ];
  }

  pub Lines-set_issued :
      (f : List Issued → List Issued)
      → ((items : List Item) (rows : List Issued) → Q items rows → Q items (f rows))
      → Keeps (Lines Q) (set_issued f)
  unfolding set_issued
  Lines-set_issued f keep = record {
    after = λ s h. record { holds = keep s.db.items s.db.issued h.holds };
  }

module _ {κ} {Q : List Item → List Issued → Type 0} {A : Type κ} where
  Lines-rollback :
      (r : Result A) (w w' : World)
      → Lines Q w
      → Lines Q w'
      → Lines Q (
          (elim r as (λ _. Result A × World) [
            | ok a ↦ (ok a, w')
            | err e ↦ (err e, record w' { db = w.db })
          ]).1)
  Lines-rollback (ok a) w w' h h' = h'
  Lines-rollback (err e) w w' h h' = record { holds = h.holds }

  pub Lines-transaction : (m : Action A) → Keeps (Lines Q) m → Keeps (Lines Q) (transaction m)
  unfolding transaction
  Lines-transaction m km = record {
    after = λ w h. let (r, w') = m w in Lines-rollback r w w' h (km.after w h);
  }

pub ruleset lines_rules = (
  keeps_rules, Lines-set_products, Lines-set_inventory, Lines-set_borrowed, Lines-draw_uuid,
  Lines-invalidate_property_cache, Lines-send, Lines-update_inventory, Lines-transaction,
)
