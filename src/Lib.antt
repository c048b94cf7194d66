-- ===== src/Lib.antt =====
-- Vibehouse backend: the hotel's bookings, store, stock and payments.
--
-- The program is a NestJS server over Postgres (through Prisma), Redis and SQS. Guests book rooms
-- with addons, fill a cart, borrow things and pay through Razorpay; the desk restocks, lends, hands
-- out and takes back. All of it moves units between the columns of `inventory`. Long stays are
-- quoted, drafted and paid for apart. A payment or a reconciliation puts a message into a queue, and
-- the worker of the queue books the stay in eZee, the hotel's booking system; the reconciliation
-- brings back what has changed there, and asks for a pin of the room's lock when a guest arrives.
--
-- Which file models which part (paths from the repository's root):
--   Common                lists as tables, Boolean tests, integers
--   Exec                  a request handler: state, HTTP exceptions, loops; Exec/Keeps: invariants;
--                         Exec/Leads: what an action establishes; Exec/Ends: an action after the
--                         reads before it; Exec/Runs: known runs
--   Tables                prisma/schema.prisma: a record for each table, a data type for each status
--   World                 database, cache (src/redis/cache.service.ts) and outgoing messages
--                         (src/sqs/sqs-producer.service.ts); World/Frame: what an action leaves alone
--   Stock                 the `data: { … }` blocks of the inventory updates, and the CHECK
--                         constraints of prisma/migrations/20260414000000_inventory_non_negative_constraints;
--                         Stock/Moves: a loop of such writes over the lines of an order, as one write
--   AdminInventory        src/admin/inventory/admin-inventory.service.ts
--   Booking               src/guest/booking/guest-booking.service.ts
--   Store                 src/guest/store/guest-store.service.ts
--   Payment               src/payment/payment.service.ts
--   Staff                 src/admin/users/admin-users.service.ts, src/admin/auth/admin-auth.service.ts,
--                         src/common/guards and src/common/constants: accounts, login, permissions
--   Auth                  src/guest/auth/guest-auth.service.ts: guest accounts and one-time codes
--   Queue                 src/sqs/sqs-consumer.service.ts: the poll loop of a queue
--   Sync                  src/ezee/ezee-reconciliation.service.ts: the cached bookings against eZee
--   Worker                src/sqs/workers/ezee-sync.worker.ts: the messages that book in eZee
--   Colive                src/guest/colive/colive.service.ts and the colive methods of
--                         src/payment/payment.service.ts: long stays
--   EzeeClient            src/ezee/ezee.service.ts: requests built and answers read
--   Locks                 provisionLockAccess of src/mygate/mygate.service.ts
--   Events                src/admin/events/admin-events.service.ts
--   Kyc                   src/guest/kyc/guest-kyc.service.ts and the desk's deleteDocument of
--                         src/admin/kyc/admin-kyc.service.ts
--   System                a request for each handler that acts on the World, and runs of the server
--   Tests                 a small hotel, runs on it, and the theorems at inputs
--
-- How the code corresponds. A method `fooBar` is the function `foo_bar`. An awaited call is a bind;
-- `if (!x) throw` is `or_throw` or `throw_if`; a `for` loop is `for_each` or a recursion on the list;
-- `$transaction` is `transaction`, which undoes the writes to the database when its body throws. A
-- body that takes rows which were read before is a definition of its own, so what is proved of it
-- holds also where another request ran in between. A handler as a whole runs without interruption.
-- `findFirst` takes the first row of the table; the code gives no order there. A listing by
-- `sort_order` or by date takes the table's order for it.
--
-- Staff, Auth, Sync, Worker, Colive, Events, Locks, Queue and Booking/Availability each have a state
-- of their own, with the columns that they use; the other parts share the `World`. The services
-- outside (Razorpay, the HMACs, uuids, bcrypt, Redis, SQS, S3, mail, eZee, MyGate, `sort`, the
-- workers) are parameters of the model; no law of them is assumed, except, where a theorem says so,
-- that a uuid is new, or that sorting keeps what holds of every element. There is no fuel: every
-- function is structural.
--
-- Not modelled: names, descriptions, notes, timestamps and log lines, which are copied and never
-- tested, and the audit messages of long stays; the text of error messages; floating point (money is
-- whole paise, so `Math.round(total * 100)` is the total); the overflow of 4-byte columns; foreign
-- keys beyond the joins that are written out, and the uniqueness of uuids and of
-- `razorpay_payment_id`; the read-only listings of the desk, the store and a guest's bookings, and
-- the OCR of identity papers; the HTTP calls of eZee and MyGate, and with them a reply that is lost
-- after eZee has done what was asked (a call that throws counts as not taken); an empty text as
-- eZee's name of a room; the queue workers that only write log rows; the concurrency of
-- `autoLinkBookings` and of the lock requests, which the code does not wait for.
pub mod Common
pub mod Exec
pub mod Tables
pub mod World
pub mod Stock
pub mod AdminInventory
pub mod Booking
pub mod Store
pub mod Payment
pub mod System
pub mod Staff
pub mod Auth
pub mod Colive
pub mod Events
pub mod EzeeClient
pub mod Kyc
pub mod Locks
pub mod Queue
pub mod Sync
pub mod Worker
pub mod Tests
