-- ===== src/Billing/Wallets/Crossing.antt =====
-- The notices of a balance that passes zero (`_notify_balance_crossing`).
use native.Mathlib.Decide.{dec_lt}
use plomio.Prelude.{
  ℕ, ◌+◌, ◌≡◌, refl, arith, Bool, true, false, ◌&&◌, List, [], ◌∷◌, count_where, ◌==◌,
  if◌then◌else◌, ◌++◌, none, some, ap, ◌∙◌, sym, ==_iff,
}
use plomio.Prelude.Int.{ℤ, pos, ◌+ℤ◌, ◌-ℤ◌, ◌≤ℤ◌, ltb_ℤ, leb_ℤ, int_laws}
use plomio.Core.Enums.{EventCode, balance_depleted}
use plomio.Database.{Database, Notice}
use plomio.Billing.Wallets.{
  BillingConfig, Charge, crossing, notify_balance_crossing, charge, get_balance, Payload, none,
  balance_low, some,
}
use plomio.Billing.Wallets.Ledger.{posted, get_balance-settled}
use plomio.Billing.Wallets.Debits.{charged_row, charge-free, charge-paid, after_charge-books}
use plomio.Billing.Wallets.Prices.{charge_cost}

is_depleted : EventCode → Bool
is_depleted balance_depleted = true
is_depleted _ = false

-- How often a user has been told that the balance is exhausted.
pub depleted_notices : ℕ → List Notice → ℕ
unfolding is_depleted
depleted_notices u = count_where (λ n. (n.user_id == u) && is_depleted n.event_code)

-- 1 where the balance goes from positive to not positive.
pub passes_zero : ℤ → ℤ → ℕ
passes_zero before after = if ltb_ℤ (pos 0) before && leb_ℤ after (pos 0) then 1 else 0

passes_zero_trans :
    (a b c : ℤ) → b ≤ℤ a → c ≤ℤ b → passes_zero a b + passes_zero b c ≡ passes_zero a c
unfolding passes_zero
passes_zero_trans a b c h k = ground arith

passes_zero_refl : (a : ℤ) → passes_zero a a ≡ 0
unfolding passes_zero
passes_zero_refl a = ground arith

pub run_charges : BillingConfig → List (ℕ × Charge) → Database → Database
run_charges config [] db = db
run_charges config ((now, r) ∷ rs) db = run_charges config rs (charge config now r db).1

depleted-append :
    (u : ℕ) (ns : List Notice) (n : Notice)
    → depleted_notices u (ns ++ n ∷ [])
      ≡ depleted_notices u ns + (if (n.user_id == u) && is_depleted n.event_code then 1 else 0)
unfolding depleted_notices
depleted-append u [] n = omega arith
depleted-append u (x ∷ ns) n = omega (arith, depleted-append u ns n)

depleted-notify_balance_crossing :
    (config : BillingConfig) (u j : ℕ) (before after : ℤ) (db : Database)
    → config.notifies ≡ true
    → depleted_notices j (notify_balance_crossing config u before after db).1.notices
      ≡ depleted_notices j db.notices + (if u == j then passes_zero before after else 0)
unfolding notify_balance_crossing crossing passes_zero is_depleted
depleted-notify_balance_crossing config u j before after db h = ground (
  arith,
  depleted-append j db.notices
      (record { user_id = u; event_code = balance_depleted; payload = Payload.balance after none }),
  depleted-append j db.notices (record {
    user_id = u;
    event_code = balance_low;
    payload = Payload.balance after (some config.low_balance_threshold);
  }),
)

-- A charge takes nothing from the others and never raises a balance.
charge-balance-le :
    (config : BillingConfig) (now : ℕ) (r : Charge) (j : ℕ) (db : Database)
    → get_balance j (charge config now r db).1.credit_wallets ≤ℤ get_balance j db.credit_wallets
charge-balance-le config now r j db = elim (dec_lt 0 (charge_cost r db)) [
  | yes p ↦
      rw
        (
          charge-paid config now r db p,
          (after_charge-books config now r db).0,
          get_balance-settled j r.user_id (pos 0 -ℤ pos (charge_cost r db)) db.credit_wallets,
        )
        (lowered (r.user_id == j))
  | no p ↦ rw (charge-free config now r db (omega arith)) (omega arith)
]
  where
    lowered :
        (b : Bool)
        → get_balance j db.credit_wallets +ℤ (if b then pos 0 -ℤ pos (charge_cost r db) else pos 0)
          ≤ℤ get_balance j db.credit_wallets
    lowered true = omega int_laws
    lowered false = omega int_laws

back : (a c : ℤ) → a +ℤ c -ℤ c ≡ a
back a c = omega int_laws

stays : (a : ℤ) → passes_zero a (a +ℤ pos 0) ≡ 0
stays a = ap (passes_zero a) (same a) ∙ passes_zero_refl a
  where
    same : (b : ℤ) → b +ℤ pos 0 ≡ b
    same b = omega int_laws

depleted-charge :
    (config : BillingConfig) (now : ℕ) (r : Charge) (j : ℕ) (db : Database)
    → config.notifies ≡ true
    → let db' = (charge config now r db).1 in
      depleted_notices j db'.notices
      ≡ depleted_notices j db.notices
        + passes_zero (get_balance j db.credit_wallets) (get_balance j db'.credit_wallets)
depleted-charge config now r j db h = elim (dec_lt 0 (charge_cost r db)) [
  | yes p ↦
      rw
        (
          charge-paid config now r db p,
          (after_charge-books config now r db).0,
          get_balance-settled j r.user_id (pos 0 -ℤ pos (charge_cost r db)) db.credit_wallets,
          depleted-notify_balance_crossing config r.user_id j _ _
              (posted r.user_id _ (charged_row now r db) db) h,
        )
        (ap (λ k. depleted_notices j db.notices + k) (paid (r.user_id == j) (==_iff r.user_id j).0))
  | no p ↦
      rw (charge-free config now r db (omega arith))
        (omega (arith, passes_zero_refl (get_balance j db.credit_wallets)))
]
  where
    paid :
        (b : Bool)
        → (b ≡ true → r.user_id ≡ j)
        → (if b
            then passes_zero
                ((charged_row now r db).balance_after -ℤ (charged_row now r db).amount)
                (charged_row now r db).balance_after
            else 0)
          ≡ passes_zero (get_balance j db.credit_wallets) (
              get_balance j db.credit_wallets
              +ℤ (if b then pos 0 -ℤ pos (charge_cost r db) else pos 0))
    paid true e =
        let c = pos 0 -ℤ pos (charge_cost r db) in
        ap (λ b. passes_zero b (get_balance r.user_id db.credit_wallets +ℤ c))
          (back (get_balance r.user_id db.credit_wallets) c)
        ∙ ap
            (λ k.
              passes_zero (get_balance k db.credit_wallets) (get_balance k db.credit_wallets +ℤ c))
            (e refl)
    paid false e = sym (stays (get_balance j db.credit_wallets))

-- Where notices are sent, however many charges are made, of whomever, a user is told once that the
-- balance is exhausted if it went from positive to not positive, and never otherwise; and no charge
-- raises a balance.
pub depleted-run_charges :
    (config : BillingConfig) (rs : List (ℕ × Charge)) (j : ℕ) (db : Database)
    → config.notifies ≡ true
    → let db' = run_charges config rs db in
      (depleted_notices j db'.notices
        ≡ depleted_notices j db.notices
          + passes_zero (get_balance j db.credit_wallets) (get_balance j db'.credit_wallets))
      × (get_balance j db'.credit_wallets ≤ℤ get_balance j db.credit_wallets)
unfolding run_charges
depleted-run_charges config [] j db h =
    (omega (arith, passes_zero_refl (get_balance j db.credit_wallets)), omega arith)
depleted-run_charges config ((now, r) ∷ rs) j db h =
    let db' = (charge config now r db).1 in
    let (ih, down) = depleted-run_charges config rs j db' h in
    let first = charge-balance-le config now r j db in
    (
      omega (
        arith,
        ih,
        depleted-charge config now r j db h,
        passes_zero_trans (get_balance j db.credit_wallets) (get_balance j db'.credit_wallets)
            (get_balance j (run_charges config rs db').credit_wallets) first down,
      ),
      omega (arith, first, down),
    )
