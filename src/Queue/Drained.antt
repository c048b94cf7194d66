-- ===== src/Queue/Drained.antt =====
-- What becomes of the messages that are received.
use vibehouse_backend.Common.{
  ℕ, ◌≡◌, refl, ap, sym, ◌∙◌, Option, none, some, List, [], ◌∷◌, ◌++◌, Bool-cases, inl, inr,
}
use mathlib.Core.List.{append_assoc}
use vibehouse_backend.Queue.{
  Failure, is_deadlock, QueueMessage, Response, poll_error, received, Call, process, delete_message,
  change_visibility, sleep, Parsed, envelope, malformed, QueueServices, settle, after_worker,
  consume_parsed, consume, consume_all, poll, poll_loop,
}

-- The messages of the answers, in their order.
abbrev pub messages : List Response → List QueueMessage
messages [] = []
messages (poll_error ∷ rs) = messages rs
messages (received ms ∷ rs) = ms ++ messages rs

-- The envelopes that a worker was handed, and the messages that were deleted.
abbrev pub handed : List Call → List ℕ
handed [] = []
handed (process e ∷ cs) = e ∷ handed cs
handed (delete_message h ∷ cs) = handed cs
handed (change_visibility h n ∷ cs) = handed cs
handed (sleep n ∷ cs) = handed cs

abbrev pub deleted : List Call → List ℕ
deleted [] = []
deleted (process e ∷ cs) = deleted cs
deleted (delete_message h ∷ cs) = h ∷ deleted cs
deleted (change_visibility h n ∷ cs) = deleted cs
deleted (sleep n ∷ cs) = deleted cs

handed-append : (xs ys : List Call) → handed (xs ++ ys) ≡ handed xs ++ handed ys
handed-append [] ys = refl
handed-append (process e ∷ xs) ys = ap (λ r. e ∷ r) (handed-append xs ys)
handed-append (delete_message h ∷ xs) ys = handed-append xs ys
handed-append (change_visibility h n ∷ xs) ys = handed-append xs ys
handed-append (sleep n ∷ xs) ys = handed-append xs ys

deleted-append : (xs ys : List Call) → deleted (xs ++ ys) ≡ deleted xs ++ deleted ys
deleted-append [] ys = refl
deleted-append (process e ∷ xs) ys = deleted-append xs ys
deleted-append (delete_message h ∷ xs) ys = ap (λ r. h ∷ r) (deleted-append xs ys)
deleted-append (change_visibility h n ∷ xs) ys = deleted-append xs ys
deleted-append (sleep n ∷ xs) ys = deleted-append xs ys

module _ {S : Type 0} (env : QueueServices S) where
  abbrev pub parsed : Parsed → List ℕ
  parsed (envelope e) = e ∷ []
  parsed (malformed f) = []

  -- The envelopes of the messages that parse.
  abbrev pub envelopes : List QueueMessage → List ℕ
  envelopes [] = []
  envelopes (m ∷ ms) = parsed (env.parse m.body) ++ envelopes ms

  -- The worker takes the message: it answers without a failure.
  abbrev succeeds : Option Failure → List ℕ → List ℕ
  succeeds none hs = hs
  succeeds (some f) hs = []

  -- The handles of the messages that the worker takes, run on one message after another.
  abbrev take_one : QueueMessage → S → Parsed → List ℕ × S
  take_one m s (malformed f) = ([], s)
  take_one m s (envelope e) =
      let (answer, s') = env.worker e s in (succeeds answer (m.receipt_handle ∷ []), s')

  abbrev pub taken : List QueueMessage → S → List ℕ
  taken [] s = []
  taken (m ∷ ms) s = let (hs, s') = take_one m s (env.parse m.body) in hs ++ taken ms s'

  settle-none :
      (m : QueueMessage) (f : Option Failure)
      → (handed (settle env m f) ≡ []) × (deleted (settle env m f) ≡ [])
  settle-none m none = (refl, refl)
  settle-none m (some f) = elim (Bool-cases (is_deadlock f)) [
    | inl yes' ↦ rw yes' (refl, refl)
    | inr no' ↦ rw no' (refl, refl)
  ]

  after_worker_lem :
      (m : QueueMessage) (r : Option Failure)
      → (handed (after_worker env m r) ≡ [])
        × (deleted (after_worker env m r) ≡ succeeds r (m.receipt_handle ∷ []))
  after_worker_lem m (some f) = settle-none m (some f)
  after_worker_lem m none =
      let done = settle-none m (env.delete_answer m.receipt_handle) in
      (done.0, ap (λ r. m.receipt_handle ∷ r) done.1)

  consume_parsed_lem :
      (p : Parsed) (m : QueueMessage) (s : S)
      → (handed (consume_parsed env p m s).0 ≡ parsed p)
        × (deleted (consume_parsed env p m s).0 ≡ (take_one m s p).0)
        × ((consume_parsed env p m s).1 ≡ (take_one m s p).1)
  unfolding consume_parsed
  consume_parsed_lem (malformed f) m s =
      let none' = settle-none m (some f) in (none'.0, none'.1, refl)
  consume_parsed_lem (envelope e) m s =
      let done = after_worker_lem m (env.worker e s).0 in (ap (λ r. e ∷ r) done.0, done.1, refl)

  taken_append :
      (ms ns : List QueueMessage) (s : S)
      → (deleted (consume_all env ms s).0 ≡ taken ms s)
        × (handed (consume_all env ms s).0 ≡ envelopes ms)
        × (taken (ms ++ ns) s ≡ taken ms s ++ taken ns (consume_all env ms s).1)
  unfolding consume_all
  taken_append [] ns s = (refl, refl, refl)
  taken_append (m ∷ ms) ns s =
      let (h, d, st) = consume_parsed_lem (env.parse m.body) m s in
      let (d', h', t') = taken_append ms ns (take_one m s (env.parse m.body)).1 in
      let next = (take_one m s (env.parse m.body)).1 in
      rw st (
        deleted-append (consume env m s).0 (consume_all env ms next).0 ∙ rw (d, d') refl,
        handed-append (consume env m s).0 (consume_all env ms next).0 ∙ rw (h, h') refl,
        ap (λ r. (take_one m s (env.parse m.body)).0 ++ r) t'
            ∙ sym (
                append_assoc (take_one m s (env.parse m.body)).0 (taken ms next)
                  (taken ns (consume_all env ms next).1)),
      )

  envelopes-append :
      (ms ns : List QueueMessage) → envelopes (ms ++ ns) ≡ envelopes ms ++ envelopes ns
  envelopes-append [] ns = refl
  envelopes-append (m ∷ ms) ns =
      ap (λ r. parsed (env.parse m.body) ++ r) (envelopes-append ms ns)
      ∙ sym (append_assoc (parsed (env.parse m.body)) (envelopes ms) (envelopes ns))

  -- Every message that is received and parses is handed to the worker once, in the order of
  -- receipt, whatever fails before it; and exactly the messages that the worker takes without a
  -- failure are deleted, in that order.
  pub poll_loop_lem :
      (rs : List Response) (s : S)
      → (handed (poll_loop env rs s).0 ≡ envelopes (messages rs))
        × (deleted (poll_loop env rs s).0 ≡ taken (messages rs) s)
  unfolding poll_loop poll
  poll_loop_lem [] s = (refl, refl)
  poll_loop_lem (poll_error ∷ rs) s = poll_loop_lem rs s
  poll_loop_lem (received [] ∷ rs) s = poll_loop_lem rs s
  poll_loop_lem (received (m ∷ ms) ∷ rs) s =
      let (d, h, t) = taken_append (m ∷ ms) (messages rs) s in
      let (calls, s') = consume_all env (m ∷ ms) s in
      let (h', d') = poll_loop_lem rs (consume_all env (m ∷ ms) s).1 in
      (
        handed-append (consume_all env (m ∷ ms) s).0 _
            ∙ rw (h, h') (sym (envelopes-append (m ∷ ms) (messages rs))),
        deleted-append (consume_all env (m ∷ ms) s).0 _ ∙ rw (d, d') (sym t),
      )
