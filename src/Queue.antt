-- ===== src/Queue.antt =====
-- The queue consumer (src/sqs/sqs-consumer.service.ts). What SQS, `JSON.parse` and the workers answer
-- is a parameter; the calls that the loop makes are its output, in their order.
pub mod Drained
use vibehouse_backend.Common.{
  ℕ, Bool, true, false, ◌||◌, Option, none, some, List, [], ◌∷◌, ◌++◌, if◌then◌else◌,
}

-- The code of a Postgres error: 40P01, or another one.
pub data PgCode : Type 0 where
  deadlock_detected : PgCode
  other_code : ℕ → PgCode

-- An exception, as `isDeadlock` reads it.
pub record Failure : Type 0 where
  pub code : Option PgCode
  pub meta_code : Option PgCode
  pub says_deadlock : Bool

abbrev pub is_detected : Option PgCode → Bool
is_detected (some deadlock_detected) = true
is_detected _ = false

abbrev pub code_or : Option PgCode → Option PgCode → Option PgCode
code_or none meta = meta
code_or (some c) meta = some c

unfoldable pub is_deadlock : Failure → Bool
is_deadlock e = is_detected (code_or e.code e.meta_code) || e.says_deadlock

pub record QueueMessage : Type 0 where
  pub body : ℕ
  pub receipt_handle : ℕ

-- What `receive` answers.
pub data Response : Type 0 where
  poll_error : Response
  received : List QueueMessage → Response

pub data Call : Type 0 where
  process : (envelope : ℕ) → Call
  delete_message : (receipt_handle : ℕ) → Call
  change_visibility : (receipt_handle seconds : ℕ) → Call
  sleep : (milliseconds : ℕ) → Call

pub data Parsed : Type 0 where
  envelope : ℕ → Parsed
  malformed : Failure → Parsed

pub record QueueServices (S : Type 0) : Type 0 where
  pub parse : ℕ → Parsed
  -- a worker answers with a failure or with nothing
  pub worker : ℕ → S → Option Failure × S
  pub delete_answer : ℕ → Option Failure
  pub empty_delay : ℕ

-- The calls of a step, and the state after them.
abbrev pub Step : Type 0 → Type 0
Step S = List Call × S

module _ {S : Type 0} (env : QueueServices S) where
  -- The end of a message whose handling threw `f`, if it did.
  abbrev pub settle : QueueMessage → Option Failure → List Call
  settle msg none = []
  settle msg (some f) = if is_deadlock f then change_visibility msg.receipt_handle 2 ∷ [] else []

  abbrev pub after_worker : QueueMessage → Option Failure → List Call
  after_worker msg (some f) = settle msg (some f)
  after_worker msg none =
      delete_message msg.receipt_handle ∷ settle msg (env.delete_answer msg.receipt_handle)

  unfoldable pub consume_parsed : Parsed → QueueMessage → S → Step S
  consume_parsed (malformed f) msg s = (settle msg (some f), s)
  consume_parsed (envelope e) msg s =
      let (answer, s') = env.worker e s in (process e ∷ after_worker msg answer, s')

  abbrev pub consume : QueueMessage → S → Step S
  consume msg s = consume_parsed (env.parse msg.body) msg s

  -- The failure of a message does not keep the next one back.
  unfoldable pub consume_all : List QueueMessage → S → Step S
  consume_all [] s = ([], s)
  consume_all (msg ∷ rest) s =
      let (calls, s') = consume msg s in
      let (more, s'') = consume_all rest s' in (calls ++ more, s'')

  -- One iteration of the loop.
  unfoldable pub poll : Response → S → Step S
  poll poll_error s = (sleep 5000 ∷ [], s)
  poll (received []) s = (sleep env.empty_delay ∷ [], s)
  poll (received (msg ∷ rest)) s = consume_all (msg ∷ rest) s

  -- `while (this.running)`, for the answers that come before the shutdown.
  unfoldable pub poll_loop : List Response → S → Step S
  poll_loop [] s = ([], s)
  poll_loop (r ∷ rs) s =
      let (calls, s') = poll r s in let (more, s'') = poll_loop rs s' in (calls ++ more, s'')
