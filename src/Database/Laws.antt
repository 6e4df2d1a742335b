-- ===== src/Database/Laws.antt =====
-- How a transaction ends (core/transaction_manager.py).
use plomio.Prelude.{◌≡◌, arith}
use plomio.Core.Result.{Error, ok, err}
use plomio.Database.{Database, Action, transaction, ◌>>=◌}

module _ {A : Type 0} (body : Action A) (db : Database) {db' : Database} where
  -- A body that returns is committed.
  pub transaction-ok : {a : A} → body db ≡ (ok a, db') → transaction body db ≡ (ok a, db')
  transaction-ok e = ground (arith, e)

  -- A body that raises leaves the database as it was.
  pub transaction-err : {e : Error} → body db ≡ (err e, db') → transaction body db ≡ (err e, db)
  transaction-err e = ground (arith, e)

module _ {A B : Type 0} (m : Action A) (f : A → Action B) (db : Database) {db' : Database} where
  pub >>=-ok : {a : A} → m db ≡ (ok a, db') → (m >>= f) db ≡ f a db'
  >>=-ok e = ground (arith, e)

  pub >>=-err : {e : Error} → m db ≡ (err e, db') → (m >>= f) db ≡ (err e, db')
  >>=-err e = ground (arith, e)
