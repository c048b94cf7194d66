-- ===== src/Exec/Runs.antt =====
-- A run of a sequence whose first action is known.
use vibehouse_backend.Common.{◌≡◌, refl}
use vibehouse_backend.Exec.{Error, ok, err, Exec, ◌>>=◌}

module _ {ℓ κ ι} {S : Type ℓ} {A : Type κ} {B : Type ι} where
  pub bind-ok :
      (act : Exec S A) (next : A → Exec S B) {start between : S} {a : A}
      → act start ≡ (ok a, between)
      → (act >>= next) start ≡ next a between
  unfolding ◌>>=◌
  bind-ok act next e = rw e refl

  pub bind-err :
      (act : Exec S A) (next : A → Exec S B) {start between : S} {e : Error}
      → act start ≡ (err e, between)
      → (act >>= next) start ≡ (err e, between)
  unfolding ◌>>=◌
  bind-err act next h = rw h refl
