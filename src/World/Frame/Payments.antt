-- ===== src/World/Frame/Payments.antt =====
-- Properties of the table `payments`, under each action that handlers are built from: all but
-- `set_payments` leave the table as it is.
use vibehouse_backend.Common.{ℕ, Bool, List, Option, Option-cases, inl, inr, update_checked}
use vibehouse_backend.Exec.{Result, ok, err}
use vibehouse_backend.Exec.Keeps.{Keeps, keeps_rules}
use vibehouse_backend.Tables.{
  Product, Inventory, Booking, Access, Slot, Submission, Order, Item, Payment, Borrowed, Issued,
  Ticket,
}
use vibehouse_backend.World.{
  World, Action, Services, Scope, CacheKey, Message, transaction, update_inventory, set_products,
  set_inventory, set_bookings, set_access, set_slots, set_submissions, set_orders, set_items,
  set_payments, set_borrowed, set_issued, set_tickets, draw_uuid, cache_del,
  invalidate_property_cache, send, create_razorpay_order,
}

-- `Q` holds of the table `payments`.
pub record Payments (Q : List Payment → Type 0) (w : World) : Type 0 where
  pub holds : Q w.db.payments

module _ {Q : List Payment → Type 0} where
  pub Payments-set_products :
      (f : List Product → List Product) → Keeps (Payments Q) (set_products f)
  unfolding set_products
  Payments-set_products f = record { after = λ s h. record { holds = h.holds } }

  pub Payments-set_bookings :
      (f : List Booking → List Booking) → Keeps (Payments Q) (set_bookings f)
  unfolding set_bookings
  Payments-set_bookings f = record { after = λ s h. record { holds = h.holds } }

  pub Payments-set_access : (f : List Access → List Access) → Keeps (Payments Q) (set_access f)
  unfolding set_access
  Payments-set_access f = record { after = λ s h. record { holds = h.holds } }

  pub Payments-set_slots : (f : List Slot → List Slot) → Keeps (Payments Q) (set_slots f)
  unfolding set_slots
  Payments-set_slots f = record { after = λ s h. record { holds = h.holds } }

  pub Payments-set_submissions :
      (f : List Submission → List Submission) → Keeps (Payments Q) (set_submissions f)
  unfolding set_submissions
  Payments-set_submissions f = record { after = λ s h. record { holds = h.holds } }

  pub Payments-set_orders : (f : List Order → List Order) → Keeps (Payments Q) (set_orders f)
  unfolding set_orders
  Payments-set_orders f = record { after = λ s h. record { holds = h.holds } }

  pub Payments-set_items : (f : List Item → List Item) → Keeps (Payments Q) (set_items f)
  unfolding set_items
  Payments-set_items f = record { after = λ s h. record { holds = h.holds } }

  pub Payments-set_inventory :
      (f : List Inventory → List Inventory) → Keeps (Payments Q) (set_inventory f)
  unfolding set_inventory
  Payments-set_inventory f = record { after = λ s h. record { holds = h.holds } }

  pub Payments-set_borrowed :
      (f : List Borrowed → List Borrowed) → Keeps (Payments Q) (set_borrowed f)
  unfolding set_borrowed
  Payments-set_borrowed f = record { after = λ s h. record { holds = h.holds } }

  pub Payments-set_issued : (f : List Issued → List Issued) → Keeps (Payments Q) (set_issued f)
  unfolding set_issued
  Payments-set_issued f = record { after = λ s h. record { holds = h.holds } }

  pub Payments-set_tickets : (f : List Ticket → List Ticket) → Keeps (Payments Q) (set_tickets f)
  unfolding set_tickets
  Payments-set_tickets f = record { after = λ s h. record { holds = h.holds } }

  pub Payments-draw_uuid : (env : Services) → Keeps (Payments Q) (draw_uuid env)
  unfolding draw_uuid
  Payments-draw_uuid env = record { after = λ s h. record { holds = h.holds } }

  pub Payments-cache_del : (env : Services) (k : CacheKey) → Keeps (Payments Q) (cache_del env k)
  unfolding cache_del
  Payments-cache_del env k = record { after = λ s h. record { holds = h.holds } }

  pub Payments-invalidate_property_cache :
      (env : Services) (s : Scope) → Keeps (Payments Q) (invalidate_property_cache env s)
  unfolding invalidate_property_cache
  Payments-invalidate_property_cache env s = record { after = λ w h. record { holds = h.holds } }

  pub Payments-send : (env : Services) (m : Message) → Keeps (Payments Q) (send env m)
  unfolding send
  Payments-send env m = record { after = λ s h. record { holds = h.holds } }

  pub Payments-create_razorpay_order :
      (env : Services) (amount receipt : ℕ)
      → Keeps (Payments Q) (create_razorpay_order env amount receipt)
  unfolding create_razorpay_order
  Payments-create_razorpay_order env amount receipt = record {
    after = λ s h. elim (Option-cases (env.razorpay_order s.gateway_calls amount receipt)) [
      | inl refused ↦ rw (refused, create_razorpay_order) (record { holds = h.holds })
      | inr (order, accepted) ↦ rw (accepted, create_razorpay_order) (record { holds = h.holds })
    ];
  }

  pub Payments-update_inventory :
      (p : Inventory → Bool) (f : Inventory → Option Inventory)
      → Keeps (Payments Q) (update_inventory p f)
  unfolding update_inventory
  Payments-update_inventory p f = record {
    after = λ s h. elim (Option-cases (update_checked p f s.db.inventory)) [
      | inl refused ↦ rw (refused, update_inventory) h
      | inr (rows, written) ↦ rw (written, update_inventory) (record { holds = h.holds })
    ];
  }

  pub Payments-set_payments :
      (f : List Payment → List Payment)
      → ((rows : List Payment) → Q rows → Q (f rows))
      → Keeps (Payments Q) (set_payments f)
  unfolding set_payments
  Payments-set_payments f keep = record {
    after = λ s h. record { holds = keep s.db.payments h.holds };
  }

module _ {κ} {Q : List Payment → Type 0} {A : Type κ} where
  Payments-rollback :
      (r : Result A) (w w' : World)
      → Payments Q w
      → Payments Q w'
      → Payments Q (
          (elim r as (λ _. Result A × World) [
            | ok a ↦ (ok a, w')
            | err e ↦ (err e, record w' { db = w.db })
          ]).1)
  Payments-rollback (ok a) w w' h h' = h'
  Payments-rollback (err e) w w' h h' = record { holds = h.holds }

  pub Payments-transaction :
      (m : Action A) → Keeps (Payments Q) m → Keeps (Payments Q) (transaction m)
  unfolding transaction
  Payments-transaction m km = record {
    after = λ w h. let (r, w') = m w in Payments-rollback r w w' h (km.after w h);
  }

pub ruleset payments_rules = (
  keeps_rules, Payments-set_products, Payments-set_bookings, Payments-set_access,
  Payments-set_slots, Payments-set_submissions, Payments-set_orders, Payments-set_items,
  Payments-set_inventory, Payments-update_inventory, Payments-set_borrowed, Payments-set_issued,
  Payments-set_tickets, Payments-draw_uuid, Payments-cache_del, Payments-invalidate_property_cache,
  Payments-send, Payments-create_razorpay_order, Payments-transaction,
)
