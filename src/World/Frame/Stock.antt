-- ===== src/World/Frame/Stock.antt =====
-- Properties of the table `inventory`, under each action that handlers are built from: all but
-- `update_inventory` and `set_inventory` leave the table as it is.
use vibehouse_backend.Common.{
  ℕ, Bool, List, Option, some, ◌≡◌, Option-cases, inl, inr, update_checked,
}
use vibehouse_backend.Exec.{Result, ok, err}
use vibehouse_backend.Exec.Keeps.{Keeps, keeps_rules}
use vibehouse_backend.Tables.{
  Product, Inventory, Booking, Access, Slot, Submission, Order, Item, Payment, Borrowed, Issued,
  Ticket,
}
use vibehouse_backend.World.{
  World, Action, Services, Scope, CacheKey, Message, transaction, update_inventory, set_products,
  set_inventory, set_bookings, set_access, set_slots, set_submissions, set_orders, set_items,
  set_payments, set_borrowed, set_issued, set_tickets, draw_uuid, cache_del,
  invalidate_property_cache, send, create_razorpay_order,
}

-- `Q` holds of the table `inventory`.
pub record Stock (Q : List Inventory → Type 0) (w : World) : Type 0 where
  pub holds : Q w.db.inventory

module _ {Q : List Inventory → Type 0} where
  pub Stock-set_products : (f : List Product → List Product) → Keeps (Stock Q) (set_products f)
  unfolding set_products
  Stock-set_products f = record { after = λ s h. record { holds = h.holds } }

  pub Stock-set_bookings : (f : List Booking → List Booking) → Keeps (Stock Q) (set_bookings f)
  unfolding set_bookings
  Stock-set_bookings f = record { after = λ s h. record { holds = h.holds } }

  pub Stock-set_access : (f : List Access → List Access) → Keeps (Stock Q) (set_access f)
  unfolding set_access
  Stock-set_access f = record { after = λ s h. record { holds = h.holds } }

  pub Stock-set_slots : (f : List Slot → List Slot) → Keeps (Stock Q) (set_slots f)
  unfolding set_slots
  Stock-set_slots f = record { after = λ s h. record { holds = h.holds } }

  pub Stock-set_submissions :
      (f : List Submission → List Submission) → Keeps (Stock Q) (set_submissions f)
  unfolding set_submissions
  Stock-set_submissions f = record { after = λ s h. record { holds = h.holds } }

  pub Stock-set_orders : (f : List Order → List Order) → Keeps (Stock Q) (set_orders f)
  unfolding set_orders
  Stock-set_orders f = record { after = λ s h. record { holds = h.holds } }

  pub Stock-set_items : (f : List Item → List Item) → Keeps (Stock Q) (set_items f)
  unfolding set_items
  Stock-set_items f = record { after = λ s h. record { holds = h.holds } }

  pub Stock-set_payments : (f : List Payment → List Payment) → Keeps (Stock Q) (set_payments f)
  unfolding set_payments
  Stock-set_payments f = record { after = λ s h. record { holds = h.holds } }

  pub Stock-set_borrowed : (f : List Borrowed → List Borrowed) → Keeps (Stock Q) (set_borrowed f)
  unfolding set_borrowed
  Stock-set_borrowed f = record { after = λ s h. record { holds = h.holds } }

  pub Stock-set_issued : (f : List Issued → List Issued) → Keeps (Stock Q) (set_issued f)
  unfolding set_issued
  Stock-set_issued f = record { after = λ s h. record { holds = h.holds } }

  pub Stock-set_tickets : (f : List Ticket → List Ticket) → Keeps (Stock Q) (set_tickets f)
  unfolding set_tickets
  Stock-set_tickets f = record { after = λ s h. record { holds = h.holds } }

  pub Stock-draw_uuid : (env : Services) → Keeps (Stock Q) (draw_uuid env)
  unfolding draw_uuid
  Stock-draw_uuid env = record { after = λ s h. record { holds = h.holds } }

  pub Stock-cache_del : (env : Services) (k : CacheKey) → Keeps (Stock Q) (cache_del env k)
  unfolding cache_del
  Stock-cache_del env k = record { after = λ s h. record { holds = h.holds } }

  pub Stock-invalidate_property_cache :
      (env : Services) (s : Scope) → Keeps (Stock Q) (invalidate_property_cache env s)
  unfolding invalidate_property_cache
  Stock-invalidate_property_cache env s = record { after = λ w h. record { holds = h.holds } }

  pub Stock-send : (env : Services) (m : Message) → Keeps (Stock Q) (send env m)
  unfolding send
  Stock-send env m = record { after = λ s h. record { holds = h.holds } }

  pub Stock-create_razorpay_order :
      (env : Services) (amount receipt : ℕ)
      → Keeps (Stock Q) (create_razorpay_order env amount receipt)
  unfolding create_razorpay_order
  Stock-create_razorpay_order env amount receipt = record {
    after = λ s h. elim (Option-cases (env.razorpay_order s.gateway_calls amount receipt)) [
      | inl refused ↦ rw (refused, create_razorpay_order) (record { holds = h.holds })
      | inr (order, accepted) ↦ rw (accepted, create_razorpay_order) (record { holds = h.holds })
    ];
  }

  -- A write that keeps `Q`, or that the database refuses.
  pub Stock-update_inventory :
      (p : Inventory → Bool) (f : Inventory → Option Inventory)
      → ((rows rows' : List Inventory) → update_checked p f rows ≡ some rows' → Q rows → Q rows')
      → Keeps (Stock Q) (update_inventory p f)
  unfolding update_inventory
  Stock-update_inventory p f keep = record {
    after = λ s h. elim (Option-cases (update_checked p f s.db.inventory)) [
      | inl refused ↦ rw (refused, update_inventory) h
      | inr (rows, written) ↦
          rw (written, update_inventory)
            (record { holds = keep s.db.inventory rows written h.holds })
    ];
  }

  pub Stock-set_inventory :
      (f : List Inventory → List Inventory)
      → ((rows : List Inventory) → Q rows → Q (f rows))
      → Keeps (Stock Q) (set_inventory f)
  unfolding set_inventory
  Stock-set_inventory f keep = record {
    after = λ s h. record { holds = keep s.db.inventory h.holds };
  }

module _ {κ} {Q : List Inventory → Type 0} {A : Type κ} where
  Stock-rollback :
      (r : Result A) (w w' : World)
      → Stock Q w
      → Stock Q w'
      → Stock Q (
          (elim r as (λ _. Result A × World) [
            | ok a ↦ (ok a, w')
            | err e ↦ (err e, record w' { db = w.db })
          ]).1)
  Stock-rollback (ok a) w w' h h' = h'
  Stock-rollback (err e) w w' h h' = record { holds = h.holds }

  pub Stock-transaction : (m : Action A) → Keeps (Stock Q) m → Keeps (Stock Q) (transaction m)
  unfolding transaction
  Stock-transaction m km = record {
    after = λ w h. let (r, w') = m w in Stock-rollback r w w' h (km.after w h);
  }

pub ruleset stock_rules = (
  keeps_rules, Stock-set_products, Stock-set_bookings, Stock-set_access, Stock-set_slots,
  Stock-set_submissions, Stock-set_orders, Stock-set_items, Stock-set_payments, Stock-set_borrowed,
  Stock-set_issued, Stock-set_tickets, Stock-draw_uuid, Stock-cache_del,
  Stock-invalidate_property_cache, Stock-send, Stock-create_razorpay_order, Stock-transaction,
)
