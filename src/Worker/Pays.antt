-- ===== src/Worker/Pays.antt =====
-- Jobs that return, with what the AddPayment calls that they make add up to.
use vibehouse_backend.Common.{ℕ, ◌+◌, ◌≡◌, refl, Bool, false, List, [], ◌∷◌, ◌++◌, arith}
use vibehouse_backend.Exec.{Error, Result, ok, pure, gets, throw_if, ◌>>=◌, ◌>>◌, continue}
use vibehouse_backend.Worker.{
  SyncBooking, EzeeCall, insert_booking, process_booking, fetch_booking, add_payment, Sent, Worker,
  Job, set_bookings,
}
use vibehouse_backend.Worker.Handlers.{write_booking}

abbrev pub pay : EzeeCall → ℕ
pay (insert_booking subject input) = 0
pay (process_booking n) = 0
pay (fetch_booking n) = 0
pay (add_payment t n) = n

-- What the AddPayment calls ask for, together.
abbrev pub paid : List Sent → ℕ
paid [] = 0
paid (c ∷ cs) = pay c.call + paid cs

pub paid-append : (cs : List Sent) (c : Sent) → paid (cs ++ c ∷ []) ≡ paid cs + pay c.call
paid-append [] c = ground arith
paid-append (d ∷ cs) c = let ih = paid-append cs c in ground arith

-- In the state `s` the action returns, and its payments add up to `n`.
pub record Pays {A : Type 0} (s : Worker) (n : ℕ) (act : Job A) : Type 0 where
  pub answer : A
  pub returns : (act s).0 ≡ ok answer
  pub adds : paid (act s).1.sent ≡ paid s.sent + n

module _ {A B : Type 0} where
  Pays-continue :
      (next : A → Job B) (result : Result A) (a : A) (between : Worker) (n : ℕ)
      → result ≡ ok a
      → Pays between n (next a)
      → (b : B) × ((continue result next between).0 ≡ ok b)
        × (paid (continue result next between).1.sent ≡ paid between.sent + n)
  Pays-continue next result a between n e rest = rw e (rest.answer, rest.returns, rest.adds)

  pub Pays-bind :
      (s : Worker) (m n : ℕ) (act : Job A) (next : A → Job B)
      → Pays s m act
      → ((a : A) → Pays (act s).1 n (next a))
      → Pays s (m + n) (act >>= next)
  unfolding ◌>>=◌
  Pays-bind s m n act next first rest =
      let (b, r, sum) =
        Pays-continue next (act s).0 first.answer (act s).1 n first.returns (rest first.answer) in
      record { answer = b; returns = r; adds = (let one = first.adds in ground arith) }

  -- Where one of the two pays nothing.
  pub Pays-bind_first :
      (s : Worker) (n : ℕ) (act : Job A) (next : A → Job B)
      → Pays s 0 act
      → ((a : A) → Pays (act s).1 n (next a))
      → Pays s n (act >>= next)
  Pays-bind_first s n act next first rest =
      let both = Pays-bind s 0 n act next first rest in
      record {
        answer = both.answer;
        returns = both.returns;
        adds = (let a = both.adds in omega arith);
      }

  pub Pays-bind_last :
      (s : Worker) (n : ℕ) (act : Job A) (next : A → Job B)
      → Pays s n act
      → ((a : A) → Pays (act s).1 0 (next a))
      → Pays s n (act >>= next)
  Pays-bind_last s n act next first rest =
      let both = Pays-bind s n 0 act next first rest in
      record {
        answer = both.answer;
        returns = both.returns;
        adds = (let a = both.adds in omega arith);
      }

module _ {B : Type 0} {s : Worker} {n : ℕ} where
  pub Pays-gets :
      {A : Type 0} (read : Worker → A) (next : A → Job B)
      → Pays s n (next (read s))
      → Pays s n (gets read >>= next)
  unfolding ◌>>=◌
  Pays-gets read next done = record {
    answer = done.answer;
    returns = done.returns;
    adds = done.adds;
  }

  pub Pays-passes :
      (test : Bool) (e : Error) (next : Job B)
      → test ≡ false
      → Pays s n next
      → Pays s n (throw_if test e >> next)
  unfolding ◌>>=◌
  Pays-passes test e next no' done = record {
    answer = done.answer;
    returns = rw no' done.returns;
    adds = rw no' done.adds;
  }

module _ {B : Type 0} {s : Worker} where
  pub Pays-pure : (b : B) → Pays s 0 (pure b)
  unfolding ◌>>=◌
  Pays-pure b = record { answer = b; returns = refl; adds = omega arith }

pub Pays-write_booking :
    {B : Type 0} (eri : ℕ) (f : SyncBooking → SyncBooking) (b : B) (s : Worker)
    → Pays s 0 (write_booking eri f >>= λ _. pure b)
unfolding set_bookings ◌>>=◌
Pays-write_booking eri f b s = record { answer = b; returns = refl; adds = omega arith }
