-- ===== src/Billing/Wallets/Ledger.antt =====
-- Wallets and the journal: what `grant` and the writing of a row do to both.
use plomio.Prelude.{
  ℕ, ◌+◌, ◌≡◌, ◌≢◌, refl, arith, List, [], ◌∷◌, ◌++◌, some, none, Option, ◌==◌, if◌then◌else◌, inl,
  inr, Bool-cases, Option-cases, ==_iff, ◌∙◌, sym, ap,
}
use plomio.Prelude.Int.{ℤ, pos, ◌+ℤ◌, int_laws}
use plomio.Core.Result.{Result, ok}
use plomio.Database.{Database, CreditWallet, CreditTransaction}
use plomio.Database.Laws.{transaction-ok}
use plomio.Billing.Wallets.{
  find_wallet, get_balance, lock_or_create, add_to_balance, adjust_balance, grant, String,
  grant_entry, post,
}

-- The sum of a user's transactions.
unfoldable pub ledger_total : ℕ → List CreditTransaction → ℤ
ledger_total user_id [] = pos 0
ledger_total user_id (t ∷ ts) =
    (if t.user_id == user_id then t.amount else pos 0) +ℤ ledger_total user_id ts

abbrev pub IsBalanced : Database → Type 0
IsBalanced db =
    (user_id : ℕ)
    → get_balance user_id db.credit_wallets ≡ ledger_total user_id db.credit_transactions

ledger_total-append :
    (u : ℕ) (ts : List CreditTransaction) (t : CreditTransaction)
    → ledger_total u (ts ++ t ∷ [])
      ≡ ledger_total u ts +ℤ (if t.user_id == u then t.amount else pos 0)
unfolding ledger_total
ledger_total-append u [] t = omega int_laws
ledger_total-append u (x ∷ ts) t = rw (ledger_total-append u ts t) (omega int_laws)

-- Creating a wallet changes no balance.
get_balance-lock :
    (j u : ℕ) (ws : List CreditWallet)
    → get_balance j (ws ++ record { user_id = u; balance = pos 0 } ∷ []) ≡ get_balance j ws
unfolding get_balance
get_balance-lock j u [] = ground arith
get_balance-lock j u (w ∷ ws) = ground (arith, get_balance-lock j u ws)

get_balance-lock_or_create :
    (j u : ℕ) (ws : List CreditWallet) → get_balance j (lock_or_create u ws) ≡ get_balance j ws
unfolding lock_or_create
get_balance-lock_or_create j u ws = ground (arith, get_balance-lock j u ws)

find-append :
    (u : ℕ) (ws : List CreditWallet)
    → find_wallet u (ws ++ record { user_id = u; balance = pos 0 } ∷ []) ≢ none
find-append u [] = ground arith
find-append u (w ∷ ws) = ground (arith, find-append u ws)

find-lock_or_create : (u : ℕ) (ws : List CreditWallet) → find_wallet u (lock_or_create u ws) ≢ none
unfolding lock_or_create
find-lock_or_create u ws = ground (arith, find-append u ws)

get_balance-add_other :
    (j u : ℕ) (d : ℤ) (ws : List CreditWallet)
    → u ≢ j
    → get_balance j (add_to_balance u d ws) ≡ get_balance j ws
unfolding get_balance add_to_balance
get_balance-add_other j u d [] h = refl
get_balance-add_other j u d (w ∷ ws) h = ground (arith, get_balance-add_other j u d ws h)

get_balance-add_self :
    (u : ℕ) (d : ℤ) (ws : List CreditWallet)
    → find_wallet u ws ≢ none
    → get_balance u (add_to_balance u d ws) ≡ get_balance u ws +ℤ d
unfolding get_balance add_to_balance
get_balance-add_self u d [] h = absurd (h refl)
get_balance-add_self u d (w ∷ ws) h = ground (arith, get_balance-add_self u d ws)

+ℤ_zero : (a : ℤ) → a +ℤ pos 0 ≡ a
+ℤ_zero a = omega int_laws

-- A wallet that exists takes the whole change, and no other wallet is touched.
get_balance-add :
    (j u : ℕ) (d : ℤ) (ws : List CreditWallet)
    → find_wallet u ws ≢ none
    → get_balance j (add_to_balance u d ws) ≡ get_balance j ws +ℤ (if u == j then d else pos 0)
get_balance-add j u d ws h = elim (Bool-cases (u == j)) [
  | inl e ↦ rw e (rw (← (==_iff u j).0 e) (get_balance-add_self u d ws h))
  | inr e ↦ rw (e, +ℤ_zero (get_balance j ws)) (get_balance-add_other j u d ws (ground arith))
]

find-add :
    (u : ℕ) (d : ℤ) (ws : List CreditWallet)
    → find_wallet u ws ≢ none
    → find_wallet u (add_to_balance u d ws) ≢ none
unfolding add_to_balance
find-add u d [] h = ground arith
find-add u d (w ∷ ws) h = ground (arith, find-add u d ws)

abbrev pub settled : ℕ → ℤ → List CreditWallet → List CreditWallet
settled u d ws = add_to_balance u d (lock_or_create u ws)

pub get_balance-settled :
    (j u : ℕ) (d : ℤ) (ws : List CreditWallet)
    → get_balance j (settled u d ws) ≡ get_balance j ws +ℤ (if u == j then d else pos 0)
get_balance-settled j u d ws =
    rw
      (
        get_balance-add j u d (lock_or_create u ws) (find-lock_or_create u ws),
        get_balance-lock_or_create j u ws,
      )
      refl

get_balance-settled_self :
    (u : ℕ) (d : ℤ) (ws : List CreditWallet)
    → get_balance u (settled u d ws) ≡ get_balance u ws +ℤ d
get_balance-settled_self u d ws =
    get_balance-add_self u d (lock_or_create u ws) (find-lock_or_create u ws)
    ∙ ap (λ b. b +ℤ d) (get_balance-lock_or_create u u ws)

get_balance-found :
    (u : ℕ) (ws : List CreditWallet) (w : CreditWallet)
    → find_wallet u ws ≡ some w
    → get_balance u ws ≡ w.balance
unfolding get_balance
get_balance-found u ws w e = rw (e, get_balance) refl

-- `lock_or_create` and `adjust_balance` together never raise.
pub adjust-locked :
    (u : ℕ) (d : ℤ) (db : Database)
    → adjust_balance u d (record db { credit_wallets = lock_or_create u db.credit_wallets }) ≡ (
      ok (get_balance u db.credit_wallets +ℤ d),
      record db { credit_wallets = settled u d db.credit_wallets },
    )
unfolding adjust_balance
adjust-locked u d db = elim (Option-cases (find_wallet u (settled u d db.credit_wallets))) [
  | inl e ↦ absurd (find-add u d _ (find-lock_or_create u db.credit_wallets) e)
  | inr (w, e) ↦ rw e (ap (answer w) (found w e))
]
  where
    answer : CreditWallet → ℤ → Result ℤ × Database
    answer w b = (ok b, record db { credit_wallets = settled u d db.credit_wallets })

    found :
        (w : CreditWallet)
        → find_wallet u (settled u d db.credit_wallets) ≡ some w
        → w.balance ≡ get_balance u db.credit_wallets +ℤ d
    found w e = sym (get_balance-found u _ w e) ∙ get_balance-settled_self u d db.credit_wallets

-- The database after a posting.
abbrev pub posted : ℕ → ℤ → CreditTransaction → Database → Database
posted u d row db = record db {
  credit_wallets = settled u d db.credit_wallets;
  credit_transactions = db.credit_transactions ++ row ∷ [];
  next_id = db.next_id + 1;
}

pub post-eq :
    (u : ℕ) (d : ℤ) (entry : ℤ → ℕ → CreditTransaction) (db : Database)
    → let row = entry (get_balance u db.credit_wallets +ℤ d) db.next_id in
      post u d entry db ≡ (ok row, posted u d row db)
unfolding post
post-eq u d entry db = ground (arith, adjust-locked u d db)

pub grant-eq :
    (now u : ℕ) (amount : ℤ) (admin : Option ℕ) (comment : Option String) (db : Database)
    → let row =
        grant_entry now u amount admin comment
          (get_balance u db.credit_wallets +ℤ amount)
          db.next_id in
      grant now u amount admin comment db ≡ (ok row, posted u amount row db)
unfolding grant
grant-eq now u amount admin comment db =
    transaction-ok (post u amount (grant_entry now u amount admin comment)) db
      (post-eq u amount (grant_entry now u amount admin comment) db)

-- Settling a wallet and appending a row of the same amount keeps the books balanced.
pub posting-IsBalanced :
    (u : ℕ) (d : ℤ) (row : CreditTransaction) (db : Database)
    → row.user_id ≡ u
    → row.amount ≡ d
    → IsBalanced db
    → (j : ℕ)
    → get_balance j (settled u d db.credit_wallets)
      ≡ ledger_total j (db.credit_transactions ++ row ∷ [])
posting-IsBalanced u d row db e k h j = rw (
  get_balance-settled j u d db.credit_wallets,
  ledger_total-append j db.credit_transactions row,
  e,
  k,
  h j,
)

-- A grant keeps every balance equal to the sum of the user's journal.
pub grant-IsBalanced :
    (now u : ℕ) (amount : ℤ) (admin : Option ℕ) (comment : Option String) (db : Database)
    → IsBalanced db
    → IsBalanced (grant now u amount admin comment db).1
grant-IsBalanced now u amount admin comment db h j =
    rw (grant-eq now u amount admin comment db) (posting-IsBalanced u amount _ db refl refl h j)
