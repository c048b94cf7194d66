-- ===== src/World.antt =====
-- What a handler acts on: the database, the Redis cache (src/redis/cache.service.ts) and the
-- messages that reached the queues (src/sqs/sqs-producer.service.ts). Postgres, Redis, SQS,
-- Razorpay, the HMAC and the uuid generator are not this program's code: what they answer is the
-- parameter `env`.
pub mod Frame
pub mod Runs
pub mod Invalidation
use vibehouse_backend.Common.{
  ℕ, suc, ◌+◌, Bool, true, false, ◌&&◌, Option, none, some, List, [], ◌∷◌, ◌++◌, ◌==◌,
  if◌then◌else◌, update_checked, delete_where,
}
use vibehouse_backend.Exec.{Result, ok, err, Exec, gateway_error, check_violation, ◌>>=◌, ◌>>◌}
use vibehouse_backend.Tables.{
  Db, Ticket, Product, Inventory, Booking, Access, Slot, Submission, Order, Item, Purpose, Payment,
  Borrowed, Issued,
}

-- The owner's views are cached under 'all', the others under the property's id.
pub data Scope : Type 0 where
  all : Scope
  property : ℕ → Scope

abbrev pub scope_eq : Scope → Scope → Bool
scope_eq all all = true
scope_eq (property a) (property b) = a == b
scope_eq _ _ = false

pub data CacheKey : Type 0 where
  catalog services borrowables admin_products admin_stock : Scope → CacheKey
  jwt_admin jwt_guest : ℕ → CacheKey
  rooms : ℕ → ℕ → ℕ → CacheKey

unfoldable pub key_eq : CacheKey → CacheKey → Bool
key_eq (catalog s) (catalog t) = scope_eq s t
key_eq (services s) (services t) = scope_eq s t
key_eq (borrowables s) (borrowables t) = scope_eq s t
key_eq (admin_products s) (admin_products t) = scope_eq s t
key_eq (admin_stock s) (admin_stock t) = scope_eq s t
key_eq (jwt_admin a) (jwt_admin b) = a == b
key_eq (jwt_guest a) (jwt_guest b) = a == b
key_eq (rooms p a b) (rooms q c d) = p == q && a == c && b == d
key_eq _ _ = false

pub data ActorType : Type 0 where
  admin guest system : ActorType

pub data AuditAction : Type 0 where
  product_create product_update product_delete inventory_restock inventory_damage : AuditAction
  inventory_config_update borrowable_checkout borrowable_return_verified : AuditAction
  payment_created booking_payment_created payment_captured payment_failed : AuditAction
  booking_payment_failed booking_confirmed : AuditAction
  returnable_issued returnable_return_verified : AuditAction
  admin_create admin_deactivate admin_delete self_profile_update admin_profile_update : AuditAction

pub data Message : Type 0 where
  audit_log : ActorType → (actor : ℕ) → AuditAction → (entity : ℕ) → Message
  low_stock_alert : (property product available threshold : ℕ) → Message
  payment_success :
      (eri payment : ℕ) → Option ℕ → (amount : ℕ) → Purpose → (guest property : ℕ) → Message
  booking_confirmed_event : (eri payment guest : ℕ) → Message
  ezee_add_extra_charge : (eri property : ℕ) → Option ℕ → Message
  ezee_insert_booking : (eri guest property amount : ℕ) → Message

pub record World : Type 0 where
  pub db : Db
  -- a key, and the ids of the rows that the cached answer lists
  pub cache : List (CacheKey × List ℕ)
  pub outbox : List Message
  -- how many uuids have been drawn, and how many Razorpay orders asked for
  pub drawn : ℕ
  pub gateway_calls : ℕ

pub record Services : Type 0 where
  -- the uuid that the n-th call of `uuidv4` returns
  pub uuid : ℕ → ℕ
  -- the text that `generateERI` makes of a property's city, the clock and a uuid
  pub reservation_id : ℕ → ℕ → ℕ
  -- whether Redis answers a call about a key; CacheService swallows the failure
  pub redis_up : CacheKey → Bool
  -- whether a message is accepted; SqsProducerService swallows the failure
  pub sqs_up : Message → Bool
  -- `razorpay.orders.create` at its n-th call, for an amount in paise and a receipt
  pub razorpay_order : ℕ → ℕ → ℕ → Option ℕ
  -- the two HMACs, of the pair (order, payment) and of a raw body
  pub payment_hmac : ℕ → ℕ → ℕ
  pub webhook_hmac : ℕ → ℕ
  -- whether S3 deletes an object
  pub s3_up : ℕ → Bool
  -- NODE_ENV === 'development'
  pub development : Bool

abbrev pub Action {κ} : Type κ → Type κ
Action A = Exec World A

-- `this.prisma.$transaction`: what the callback wrote is undone if it throws.
unfoldable pub transaction {κ} : {A : Type κ} → Action A → Action A
transaction m w =
    let (r, w') = m w in elim r [ ok a ↦ (ok a, w') | err e ↦ (err e, record w' { db = w.db }) ]

-- `inventory.update`, `inventory.updateMany`: refused where a CHECK constraint fails.
unfoldable pub update_inventory :
    (Inventory → Bool) → (Inventory → Option Inventory) → Action (Unit {0})
update_inventory p f w = elim (update_checked p f w.db.inventory) [
  | none ↦ (err check_violation, w)
  | some rows ↦ (ok tt, record w { db = record w.db { inventory = rows } })
]

-- The writes to one table.
unfoldable pub set_products : (List Product → List Product) → Action (Unit {0})
set_products f w = (ok tt, record w { db = record w.db { products = f w.db.products } })

unfoldable pub set_inventory : (List Inventory → List Inventory) → Action (Unit {0})
set_inventory f w = (ok tt, record w { db = record w.db { inventory = f w.db.inventory } })

unfoldable pub set_bookings : (List Booking → List Booking) → Action (Unit {0})
set_bookings f w = (ok tt, record w { db = record w.db { bookings = f w.db.bookings } })

unfoldable pub set_access : (List Access → List Access) → Action (Unit {0})
set_access f w = (ok tt, record w { db = record w.db { access = f w.db.access } })

unfoldable pub set_slots : (List Slot → List Slot) → Action (Unit {0})
set_slots f w = (ok tt, record w { db = record w.db { slots = f w.db.slots } })

unfoldable pub set_submissions : (List Submission → List Submission) → Action (Unit {0})
set_submissions f w = (ok tt, record w { db = record w.db { submissions = f w.db.submissions } })

unfoldable pub set_orders : (List Order → List Order) → Action (Unit {0})
set_orders f w = (ok tt, record w { db = record w.db { orders = f w.db.orders } })

unfoldable pub set_items : (List Item → List Item) → Action (Unit {0})
set_items f w = (ok tt, record w { db = record w.db { items = f w.db.items } })

unfoldable pub set_payments : (List Payment → List Payment) → Action (Unit {0})
set_payments f w = (ok tt, record w { db = record w.db { payments = f w.db.payments } })

unfoldable pub set_borrowed : (List Borrowed → List Borrowed) → Action (Unit {0})
set_borrowed f w = (ok tt, record w { db = record w.db { borrowed = f w.db.borrowed } })

unfoldable pub set_issued : (List Issued → List Issued) → Action (Unit {0})
set_issued f w = (ok tt, record w { db = record w.db { issued = f w.db.issued } })

unfoldable pub set_tickets : (List Ticket → List Ticket) → Action (Unit {0})
set_tickets f w = (ok tt, record w { db = record w.db { tickets = f w.db.tickets } })

module _ (env : Services) where
  -- `uuidv4()`
  unfoldable pub draw_uuid : Action ℕ
  draw_uuid w = (ok (env.uuid w.drawn), record w { drawn = suc w.drawn })

  -- `this.cache.del(key)`
  unfoldable pub cache_del : CacheKey → Action (Unit {0})
  cache_del k w = (
    ok tt,
    record w {
      cache = if env.redis_up k then delete_where (λ e. key_eq k e.0) w.cache else w.cache;
    },
  )

  -- `invalidatePropertyCache`
  unfoldable pub invalidate_property_cache : Scope → Action (Unit {0})
  unfolding cache_del ◌>>=◌
  invalidate_property_cache s = do
    cache_del (catalog s)
    cache_del (services s)
    cache_del (borrowables s)
    cache_del (admin_products s)
    cache_del (admin_stock s)

  -- `sendFifo`, `sendStandard`: a failure is logged and dropped.
  unfoldable pub send : Message → Action (Unit {0})
  send m w = (ok tt, record w { outbox = if env.sqs_up m then w.outbox ++ m ∷ [] else w.outbox })

  -- `this.razorpay.orders.create`
  unfoldable pub create_razorpay_order : (amount receipt : ℕ) → Action ℕ
  create_razorpay_order amount receipt w =
      let w' = record w { gateway_calls = suc w.gateway_calls } in
      elim (env.razorpay_order w.gateway_calls amount receipt) [
        | none ↦ (err gateway_error, w')
        | some order ↦ (ok order, w')
      ]
