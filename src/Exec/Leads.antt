-- ===== src/Exec/Leads.antt =====
-- What is true after an action when something else was true before it.
use vibehouse_backend.Exec.{Result, ok, err, Exec, continue, ◌>>=◌}
use vibehouse_backend.Exec.Keeps.{Keeps, Keeps-continue}

-- After `act`, on a return and on an exception alike, the state has `Post` when it had `Pre`.
pub record Leads {ℓ κ ι o} {S : Type ℓ} {A : Type κ} (Pre : S → Type ι) (Post : S → Type o)
    (act : Exec S A) : Type (ℓ ⊔ ι ⊔ o) where
  pub after : (start : S) → Pre start → Post (act start).1

module _ {ℓ κ ι o p} {S : Type ℓ} {A : Type κ} {B : Type p} {Pre : S → Type ι}
    {Post : S → Type o} where
  -- The rest of the sequence keeps what the first action has led to.
  pub Leads-then :
      (act : Exec S A) (next : A → Exec S B)
      → Leads Pre Post act
      → ((a : A) → Keeps Post (next a))
      → Leads Pre Post (act >>= next)
  unfolding ◌>>=◌
  Leads-then act next first rest = record {
    after = λ start held.
        let (result, between) = act start in
        Keeps-continue next result between (first.after start held) rest;
  }

  Leads-continue :
      (next : A → Exec S B) (result : Result A) (between : S)
      → ((s : S) → Pre s → Post s)
      → Pre between
      → ((a : A) → Leads Pre Post (next a))
      → Post (continue result next between).1
  Leads-continue next (err e) between weaken held rest = weaken between held
  Leads-continue next (ok a) between weaken held rest = (rest a).after between held

  -- The first action keeps what the rest starts from.
  pub Leads-first :
      (act : Exec S A) (next : A → Exec S B)
      → ((s : S) → Pre s → Post s)
      → Keeps Pre act
      → ((a : A) → Leads Pre Post (next a))
      → Leads Pre Post (act >>= next)
  unfolding ◌>>=◌
  Leads-first act next weaken first rest = record {
    after = λ start held.
        let (result, between) = act start in
        Leads-continue next result between weaken (first.after start held) rest;
  }
