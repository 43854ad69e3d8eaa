-- ===== src/Common/MemoryTransactions.antt =====
-- Transactions of a world in memory: the world from before is kept and given back on an error.
use mathlib.Core.Path.{◌≡◌, sym, ap}
use Prim.Native.String.{String}
use trafego_flow.Common.Http.{Exception, Result, ok, err}
use trafego_flow.Common.Action.{Action}
use trafego_flow.Common.Store.{Repository, Transactions, RollsBack}

module _ {W : Type 0} where
  abbrev finish : {A : Type 0} → W → Result A × W → Result A × W
  finish w (ok a, w') = (ok a, w')
  finish w (err e, w') = (err e, w)

  abbrev run : {A : Type 0} → Action W A → Action W A
  run m w = finish w (m w)

  pub finish_ok :
      {A : Type 0} (w : W) (x : Result A × W) {w' : W} {a : A}
      → finish w x ≡ (ok a, w')
      → x ≡ (ok a, w')
  finish_ok w (ok a, v) e = e
  finish_ok w (err x, v) e = cc

  finish_err :
      {A : Type 0} (w : W) (x : Result A × W) {w' : W} {e : Exception}
      → finish w x ≡ (err e, w')
      → w ≡ w'
  finish_err w (ok a, v) e = cc
  finish_err w (err x, v) e = ap (λ p. p.1) e

  abbrev pub memory_transactions : Transactions W
  memory_transactions = record { run = run; run_ok = λ m w e. finish_ok w (m w) e }

  pub memory_rolls_back :
      {E : Type 0} {id : E → String} (repo : Repository W E id) → RollsBack memory_transactions repo
  memory_rolls_back repo = record {
    run_err = λ m w e j. ap (λ v. repo.get v j) (sym (finish_err w (m w) e));
  }
