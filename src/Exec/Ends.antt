-- ===== src/Exec/Ends.antt =====
-- What the state is after an action that is run from one state, by way of what its reads find there.
use vibehouse_backend.Common.{◌≡◌, refl, Bool, true, false, Option, none, some}
use vibehouse_backend.Exec.{Error, Result, ok, err, Exec, gets, or_throw, throw_if, continue, ◌>>=◌}

-- From the state `s` the action leads, by a return or an exception, to a state with `Inv`.
pub record Ends {ℓ κ ι} {S : Type ℓ} {A : Type κ} (Inv : S → Type ι) (s : S) (act : Exec S A)
    : Type (ℓ ⊔ ι) where
  pub holds : Inv (act s).1

-- The action writes nothing.
pub record Reads {ℓ κ} {S : Type ℓ} {A : Type κ} (act : Exec S A) : Type (ℓ ⊔ κ) where
  pub same : (s : S) → (act s).1 ≡ s

module _ {ℓ κ} {S : Type ℓ} {A : Type κ} where
  pub Reads-gets : (read : S → A) → Reads (gets read)
  unfolding ◌>>=◌
  Reads-gets read = record { same = λ s. refl }

  pub Reads-or_throw : (row : Option A) (e : Error) → Reads (or_throw {S = S} row e)
  unfolding ◌>>=◌
  Reads-or_throw (some _) e = record { same = λ s. refl }
  Reads-or_throw none e = record { same = λ s. refl }

module _ {ℓ} {S : Type ℓ} where
  pub Reads-throw_if : (test : Bool) (e : Error) → Reads (throw_if {S = S} test e)
  unfolding ◌>>=◌
  Reads-throw_if false e = record { same = λ s. refl }
  Reads-throw_if true e = record { same = λ s. refl }

pub ruleset reads_rules = (Reads-gets, Reads-or_throw, Reads-throw_if)

module _ {ℓ κ ι o} {S : Type ℓ} {A : Type κ} {B : Type o} {Inv : S → Type ι} {s : S} where
  Ends-continue :
      (next : A → Exec S B) (result : Result A) (between : S)
      → between ≡ s
      → Inv s
      → ((a : A) → result ≡ ok a → Ends Inv s (next a))
      → Inv (continue result next between).1
  Ends-continue next (err e) between same held h = rw same held
  Ends-continue next (ok a) between same held h = rw same ((h a refl).holds)

  -- What follows a read may use what the read has found.
  pub Ends-bind :
      (act : Exec S A) (next : A → Exec S B)
      → Reads act
      → Inv s
      → ((a : A) → (act s).0 ≡ ok a → Ends Inv s (next a))
      → Ends Inv s (act >>= next)
  unfolding ◌>>=◌
  Ends-bind act next reads held h = record {
    holds = Ends-continue next (act s).0 (act s).1 (reads.same s) held h;
  }
