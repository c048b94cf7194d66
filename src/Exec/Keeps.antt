-- ===== src/Exec/Keeps.antt =====
-- A property of the state that an action leaves true on every way out of it.
use vibehouse_backend.Common.{
  ◌≡◌, refl, Bool, true, false, Option, none, some, List, [], ◌∷◌, if◌then◌else◌,
}
use vibehouse_backend.Exec.{
  Error, Result, ok, err, Exec, pure, throw, gets, lift, or_throw, throw_if, continue, ◌>>=◌,
  for_each, if_found,
}

-- After `act` the state has `Inv` when it had it before: on a return and on an exception alike.
pub record Keeps {ℓ κ ι} {S : Type ℓ} {A : Type κ} (Inv : S → Type ι) (act : Exec S A)
    : Type (ℓ ⊔ ι) where
  pub after : (start : S) → Inv start → Inv (act start).1

-- Composition: sequencing, branching on a test or on a row that may be missing, loops.
module _ {ℓ κ ι o} {S : Type ℓ} {A : Type κ} {B : Type o} {Inv : S → Type ι} where
  pub Keeps-continue :
      (next : A → Exec S B) (result : Result A) (between : S)
      → Inv between
      → ((a : A) → Keeps Inv (next a))
      → Inv (continue result next between).1
  Keeps-continue next (err e) between held rest = held
  Keeps-continue next (ok a) between held rest = (rest a).after between held

  pub Keeps-bind :
      (act : Exec S A) (next : A → Exec S B)
      → Keeps Inv act
      → ((a : A) → Keeps Inv (next a))
      → Keeps Inv (act >>= next)
  unfolding ◌>>=◌
  Keeps-bind act next first rest = record {
    after = λ start held.
        let (result, between) = act start in
        Keeps-continue next result between (first.after start held) rest;
  }

  pub Keeps-if_found :
      (row : Option A) (present : A → Exec S B) (missing : Exec S B)
      → ((a : A) → Keeps Inv (present a))
      → Keeps Inv missing
      → Keeps Inv (if_found row present missing)
  Keeps-if_found none present missing kept_present kept_missing = kept_missing
  Keeps-if_found (some a) present missing kept_present kept_missing = kept_present a

module _ {ℓ κ ι} {S : Type ℓ} {A : Type κ} {Inv : S → Type ι} where
  pub Keeps-for_each :
      (rows : List A) (body : A → Exec S (Unit {0}))
      → ((a : A) → Keeps Inv (body a))
      → Keeps Inv (for_each rows body)
  unfolding for_each
  Keeps-for_each [] body each = record { after = λ _ held. held }
  Keeps-for_each (row ∷ rows) body each = record {
    after =
        (Keeps-bind (body row) (λ _. for_each rows body) (each row)
          (λ _. Keeps-for_each rows body each)).after;
  }

  pub Keeps-if :
      (test : Bool) (then_do else_do : Exec S A)
      → Keeps Inv then_do
      → Keeps Inv else_do
      → Keeps Inv (if test then then_do else else_do)
  Keeps-if false then_do else_do kept_yes kept_no = kept_no
  Keeps-if true then_do else_do kept_yes kept_no = kept_yes

-- What follows a guard may use that it has let the request pass.
module _ {ℓ κ ι} {S : Type ℓ} {A : Type κ} {Inv : S → Type ι} where
  pub Keeps-guard :
      (test : Bool) (e : Error) (rest : Unit {0} → Exec S A)
      → (test ≡ false → Keeps Inv (rest tt))
      → Keeps Inv (throw_if test e >>= rest)
  unfolding ◌>>=◌
  Keeps-guard true e rest kept = record { after = λ _ held. held }
  Keeps-guard false e rest kept = record { after = λ w held. (kept refl).after w held }

-- Actions that write nothing.
module _ {ℓ ι} {S : Type ℓ} {Inv : S → Type ι} where
  pub Keeps-throw_if : (test : Bool) (e : Error) → Keeps Inv (throw_if test e)
  unfolding ◌>>=◌
  Keeps-throw_if false _ = record { after = λ _ held. held }
  Keeps-throw_if true _ = record { after = λ _ held. held }

  module _ {κ} {A : Type κ} where
    pub Keeps-or_throw : (row : Option A) (e : Error) → Keeps Inv (or_throw row e)
    unfolding ◌>>=◌
    Keeps-or_throw (some _) _ = record { after = λ _ held. held }
    Keeps-or_throw none _ = record { after = λ _ held. held }

    pub Keeps-lift : (result : Result A) → Keeps Inv (lift result)
    unfolding ◌>>=◌
    Keeps-lift _ = record { after = λ _ held. held }

    pub Keeps-gets : (read : S → A) → Keeps Inv (gets read)
    unfolding ◌>>=◌
    Keeps-gets _ = record { after = λ _ held. held }

    pub Keeps-throw : (e : Error) → Keeps Inv (throw {A = A} e)
    unfolding ◌>>=◌
    Keeps-throw _ = record { after = λ _ held. held }

    pub Keeps-pure : (a : A) → Keeps Inv (pure a)
    unfolding ◌>>=◌
    Keeps-pure _ = record { after = λ _ held. held }

pub ruleset keeps_rules = (
  Keeps-bind, Keeps-if, Keeps-if_found, Keeps-for_each, Keeps-throw_if, Keeps-or_throw, Keeps-pure,
  Keeps-gets, Keeps-lift, Keeps-throw,
)
