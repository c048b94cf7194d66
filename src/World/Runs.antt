-- ===== src/World/Runs.antt =====
-- Runs of a transaction.
use vibehouse_backend.Common.{◌≡◌, arith}
use vibehouse_backend.Exec.{Error, ok, err}
use vibehouse_backend.World.{World, Action, transaction}

module _ {κ} {A : Type κ} (act : Action A) where
  pub transaction-ok : {w w' : World} {a : A} → act w ≡ (ok a, w') → transaction act w ≡ (ok a, w')
  unfolding transaction
  transaction-ok {w} h = ground arith

  pub transaction-err :
      {w w' : World} {e : Error}
      → act w ≡ (err e, w')
      → transaction act w ≡ (err e, record w' { db = w.db })
  unfolding transaction
  transaction-err {w} h = ground arith
