-- ===== src/Automations/Creation/Batch.antt =====
-- packages/automation/src/service.py: `bulk_create_automations`, with `find_duplicates` and
-- `bulk_create` of packages/automation/src/repository.py.
use plomio.Prelude.{
  none, some, [], ◌∷◌, true, false, ℕ, Bool, Option, if◌then◌else◌, List, String, ◌==◌, not,
  any_where, filter_where, ◌&&◌, ltb, ◌||◌, str_eq, ◌++◌, is_some,
}
use plomio.Core.Result.{
  Error, Result, ok, err, invalid_check_frequency, duplicate_automation, integrity_error,
  insufficient_credits, spending_limit_exceeded, api_key_credit_limit_exceeded, api_key_inactive,
}
use plomio.Database.{
  Database, Action, pure, gets, raise_if, modify, fresh_id, transaction, ◌>>=◌, ◌>>◌,
}
use plomio.Database.AutomationTables.{Automation}
use plomio.Billing.Wallets.{BillingConfig, charge}
use plomio.Tasks.{ensure_can_spend}
use plomio.Automations.{find_automation, List, Bool, ℕ, Option, not, filter_where, ltb}
use plomio.Automations.Creation.{
  Articles, AutomationCreateData, same_marketplace, is_text, collides, is_threshold, new_automation,
  automation_charge, Marketplace, String, any_where, str_eq, is_some,
}
use plomio.Core.Enums.{Marketplace}

-- `BulkCreateResult`
pub data BulkCreateResult : Type 0 where
  created : Automation → BulkCreateResult
  refused : Error → BulkCreateResult

-- The classes that `except InsufficientCreditsError` catches.
abbrev pub is_insufficient : Error → Bool
is_insufficient insufficient_credits = true
is_insufficient spending_limit_exceeded = true
is_insufficient api_key_credit_limit_exceeded = true
is_insufficient api_key_inactive = true
is_insufficient _ = false

abbrev pub caught : Result (Unit {0}) × Database → Result (Option Error) × Database
caught (ok x, db) = (ok none, db)
caught (err e, db) = if is_insufficient e then (ok (some e), db) else (err e, db)

-- A key of `seen`.
abbrev pub Key : Type 0
Key = Marketplace × String

abbrev pub is_key : Key → Key → Bool
is_key (m, s) (n, t) = same_marketplace m n && str_eq s t

abbrev pub key_of : Articles → AutomationCreateData → Key
key_of articles item = (
  item.marketplace,
  elim (articles.extract_article item.marketplace item.input_value) [
    | none ↦ item.input_value
    | some article ↦ article
  ],
)

-- What the first loop leaves for an item: an error, or an entity to insert.
pub data Slot : Type 0 where
  candidate : Automation → Slot
  rejected : Error → Slot

-- The first loop, in the order of its checks.
unfoldable pub classify :
    Articles
    → ℕ
    → ℕ
    → Option ℕ
    → ℕ
    → Option Error
    → List AutomationCreateData
    → List Key
    → Action (List Slot)
classify articles now user_id api_key_id min_frequency block [] seen = pure []
classify articles now user_id api_key_id min_frequency block (item ∷ items) seen =
    let again = classify articles now user_id api_key_id min_frequency block items in
    if ltb item.check_frequency_minutes min_frequency
    then (again seen >>= λ slots. pure (Slot.rejected invalid_check_frequency ∷ slots))
    else (elim block [
      | some e ↦ again seen >>= λ slots. pure (Slot.rejected e ∷ slots)
      | none ↦
          if any_where (is_key (key_of articles item)) seen
          then (again seen >>= λ slots. pure (Slot.rejected duplicate_automation ∷ slots))
          else (fresh_id >>= λ id. again (key_of articles item ∷ seen) >>= λ slots.
              pure
                (Slot.candidate (new_automation articles now user_id api_key_id item id) ∷ slots))
    ])

abbrev pub candidates : List Slot → List Automation
candidates [] = []
candidates (Slot.candidate a ∷ slots) = a ∷ candidates slots
candidates (Slot.rejected e ∷ slots) = candidates slots

-- `find_duplicates`: the rows that the query selects, and which entities they show to exist.
abbrev pub is_text_in : Option String → List Automation → Bool
is_text_in none entities = false
is_text_in (some s) entities = any_where (λ e. is_text e.article s) entities

abbrev pub is_raw_input : String → Automation → Bool
is_raw_input s e = not (is_some e.article) && str_eq e.input_value s

abbrev pub is_selected : ℕ → List Automation → Automation → Bool
is_selected user_id entities a =
    (a.user_id == user_id)
    && (any_where (λ e. same_marketplace e.marketplace a.marketplace) entities
        && (is_text_in a.article entities || any_where (is_raw_input a.input_value) entities))

abbrev pub is_shown : List Automation → Automation → Bool
is_shown rows e = elim e.article [
  | some article ↦
      any_where (λ a. same_marketplace a.marketplace e.marketplace && is_text a.article article)
        rows
  | none ↦
      any_where
        (λ a. same_marketplace a.marketplace e.marketplace && str_eq a.input_value e.input_value)
        rows
]

unfoldable pub find_duplicates : ℕ → List Automation → List Automation → Automation → Bool
find_duplicates user_id entities rows = is_shown (filter_where (is_selected user_id entities) rows)

-- `INSERT ... ON CONFLICT DO NOTHING`, row by row; a threshold out of range fails the statement.
abbrev pub insert_row : Automation → Database → Database
insert_row e db = record db {
  automations =
      if any_where (collides e) db.automations then db.automations else db.automations ++ e ∷ [];
}

unfoldable pub insert_rows : List Automation → Action (Unit {0})
insert_rows [] = pure tt
insert_rows (e ∷ es) = do
  raise_if (not (is_threshold e.price_drop_threshold_percent)) integrity_error
  modify (insert_row e)
  insert_rows es

-- The transaction of `bulk_create_automations`; `created` is read back by id.
unfoldable pub bulk_create : ℕ → List Automation → Action (Unit {0})
unfolding find_duplicates insert_rows
bulk_create user_id entities = do
  exists ← gets (λ db. find_duplicates user_id entities db.automations)
  insert_rows (filter_where (λ e. not (exists e)) entities)

-- The second loop: an entity that has become a row is paid for.
unfoldable pub settle :
    BillingConfig → ℕ → ℕ → Option ℕ → List Slot → Action (List BulkCreateResult)
settle config now user_id api_key_id [] = pure []
settle config now user_id api_key_id (Slot.rejected e ∷ slots) = do
  rest ← settle config now user_id api_key_id slots
  pure (BulkCreateResult.refused e ∷ rest)
settle config now user_id api_key_id (Slot.candidate a ∷ slots) = do
  automation ← gets (λ db. find_automation a.id db.automations)
  result ← elim automation [
    | none ↦ pure (BulkCreateResult.refused duplicate_automation)
    | some row ↦
        charge config now (automation_charge user_id api_key_id row.id)
        >> pure (BulkCreateResult.created row)
  ]
  rest ← settle config now user_id api_key_id slots
  pure (result ∷ rest)

unfoldable pub bulk_create_automations :
    Articles
    → BillingConfig
    → ℕ
    → ℕ
    → List AutomationCreateData
    → ℕ
    → Option ℕ
    → Action (List BulkCreateResult)
unfolding classify bulk_create settle
bulk_create_automations articles config now user_id items min_frequency api_key_id = do
  block ← (λ db. caught (ensure_can_spend now user_id api_key_id db))
  slots ← classify articles now user_id api_key_id min_frequency block items []
  transaction (bulk_create user_id (candidates slots))
  settle config now user_id api_key_id slots
