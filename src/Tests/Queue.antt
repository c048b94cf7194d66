-- ===== src/Tests/Queue.antt =====
-- The consumer on two polls: a good message, one whose worker deadlocks, an empty poll, a bad body.
use vibehouse_backend.Common.{ℕ, ◌≡◌, ◌+◌, false, none, some, List, [], ◌∷◌, ◌==◌, if◌then◌else◌}
use vibehouse_backend.Queue.{
  deadlock_detected, Failure, QueueMessage, Response, poll_error, received, envelope, malformed,
  QueueServices, poll_loop,
}
use vibehouse_backend.Queue.Drained.{handed, deleted, poll_loop_lem}

abbrev deadlock : Failure
deadlock = record { code = none; meta_code = some deadlock_detected; says_deadlock = false }

-- The state counts the envelopes that the worker has seen.
abbrev services : QueueServices ℕ
services = record {
  parse = λ body.
      if body == 0
      then malformed (record { code = none; meta_code = none; says_deadlock = false })
      else envelope body;
  worker = λ e n. (if e == 5 then some deadlock else none, n + 1);
  delete_answer = λ h. none;
  empty_delay = 1000;
}

abbrev message : ℕ → ℕ → QueueMessage
message body handle = record { body = body; receipt_handle = handle }

abbrev answers : List Response
answers =
    received (message 4 90 ∷ message 5 91 ∷ message 6 92 ∷ [])
    ∷ poll_error
    ∷ received []
    ∷ received (message 0 93 ∷ [])
    ∷ []

poll_loop_lem_example :
    (handed (poll_loop services answers 0).0 ≡ 4 ∷ 5 ∷ 6 ∷ [])
    × (deleted (poll_loop services answers 0).0 ≡ 90 ∷ 92 ∷ [])
poll_loop_lem_example = poll_loop_lem services answers 0
