-- ===== src/Database/Preserves.antt =====
-- Properties of the database that a service method preserves, whether it returns or raises: a rule
-- for each building block of the methods (core/transaction_manager.py, core/repository.py).
use plomio.Core.Result.{Error, Result, ok, err}
use plomio.Database.{
  Database, Action, pure, raise, gets, or_raise, raise_if, modify, transaction, ◌>>=◌, Bool, Option,
  some,
}
use plomio.Prelude.{Option, Bool, if◌then◌else◌, true, none, false}

pub record Preserves (P : Database → Type 0) {A : Type 0} (m : Action A) : Type 0 where
  pub kept : (db : Database) → P db → P (m db).1

module _ (P : Database → Type 0) where
  module _ {A : Type 0} where
    pub pure-Preserves : (a : A) → Preserves P (pure a)
    pure-Preserves a = record { kept = λ db h. h }

    pub raise-Preserves : (e : Error) → Preserves P (raise {A = A} e)
    raise-Preserves e = record { kept = λ db h. h }

    pub gets-Preserves : (f : Database → A) → Preserves P (gets f)
    gets-Preserves f = record { kept = λ db h. h }

    pub or_raise-Preserves : (o : Option A) (e : Error) → Preserves P (or_raise o e)
    or_raise-Preserves none e = record { kept = λ db h. h }
    or_raise-Preserves (some a) e = record { kept = λ db h. h }

    -- A body that raises leaves the database that it was given.
    pub transaction-Preserves : {m : Action A} → Preserves P m → Preserves P (transaction m)
    transaction-Preserves {m} k = record { kept = λ db h. by_result db h (m db) (k.kept db h) }
      where
        by_result :
            (db : Database)
            → P db
            → (r : Result A × Database) → P r.1
            → P
                (elim r.0 as (λ _. Result A × Database) [
                  | ok a ↦ (ok a, r.1)
                  | err e ↦ (err e, db)
                ]).1
        by_result db h (ok a, db') k' = k'
        by_result db h (err e, db') k' = h

  pub raise_if-Preserves : (b : Bool) (e : Error) → Preserves P (raise_if b e)
  raise_if-Preserves true e = record { kept = λ db h. h }
  raise_if-Preserves false e = record { kept = λ db h. h }

  pub modify-Preserves :
      (f : Database → Database) → ((db : Database) → P db → P (f db)) → Preserves P (modify f)
  modify-Preserves f k = record { kept = k }

  pub >>=-Preserves :
      {A B : Type 0} {m : Action A} {f : A → Action B}
      → Preserves P m
      → ((a : A) → Preserves P (f a))
      → Preserves P (m >>= f)
  >>=-Preserves {A} {B} {m} {f} k l = record { kept = λ db h. by_result (m db) (k.kept db h) }
    where
      by_result :
          (r : Result A × Database)
          → P r.1
          → P (elim r.0 as (λ _. Result B × Database) [ ok a ↦ f a r.1 | err e ↦ (err e, r.1) ]).1
      by_result (ok a, db') k' = (l a).kept db' k'
      by_result (err e, db') k' = k'

  pub if-Preserves :
      {A : Type 0} {m n : Action A} (b : Bool)
      → Preserves P m
      → Preserves P n
      → Preserves P (if b then m else n)
  if-Preserves true k l = k
  if-Preserves false k l = l

  pub Option-Preserves :
      {X A : Type 0} (o : Option X) {m : Action A} {f : X → Action A}
      → Preserves P m
      → ((x : X) → Preserves P (f x))
      → Preserves P (elim o [ none ↦ m | some x ↦ f x ])
  Option-Preserves none k l = k
  Option-Preserves (some x) k l = l x

pub ruleset preserves = (
  Option-Preserves, pure-Preserves, raise-Preserves, gets-Preserves, or_raise-Preserves,
  raise_if-Preserves, transaction-Preserves, >>=-Preserves, if-Preserves,
)
