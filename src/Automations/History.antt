-- ===== src/Automations/History.antt =====
-- The log of the checks: `delete_expired`, `get_by_automation_id`, `count_by_automation_id`,
-- `count_ticks`, `get_recent_by_automation_ids` of packages/automation/src/repository.py, and
-- `list_history`, `sweep_history_retention` of packages/automation/src/service.py.
use plomio.Core.Time.{day}
use plomio.Core.Result.{object_not_found}
use plomio.Database.{Action, pure, gets, raise_if, modify, transaction, ◌>>=◌, ◌>>◌}
use plomio.Database.AutomationTables.{Automation, AutomationCheckLog}
use plomio.Automations.{
  get_automation_row, List, Option, ℕ, Bool, ◌∷◌, filter_where, not, is_in, ltb,
}
use plomio.Prelude.{
  none, some, ℕ, Option, List, count_where, take, if◌then◌else◌, filter_where, ◌∷◌, not, Bool, drop,
  leb, any_where, length, ◌==◌, [], ◌&&◌, ltb, ◌+◌, ◌*◌, true,
}

-- `checked_at < now() - history_retention_days`
abbrev pub is_older : ℕ → AutomationCheckLog → Automation → Bool
is_older now l a =
    (a.id == l.automation_id) && ltb (l.checked_at + a.history_retention_days * day) now

abbrev pub is_expired : ℕ → List Automation → AutomationCheckLog → Bool
is_expired now rows l = any_where (is_older now l) rows

-- `sweep_history_retention`: the number of the deleted rows.
unfoldable pub sweep_history_retention : ℕ → Action ℕ
sweep_history_retention now = transaction do
  deleted_count ← gets (λ db. count_where (is_expired now db.automations) db.check_logs)
  modify (λ db. record db {
    check_logs = filter_where (λ l. not (is_expired now db.automations l)) db.check_logs;
  })
  pure deleted_count

-- `ORDER BY checked_at DESC`
unfoldable pub insert_log : AutomationCheckLog → List AutomationCheckLog → List AutomationCheckLog
insert_log l [] = l ∷ []
insert_log l (m ∷ ms) =
    let rest = insert_log l ms in if leb m.checked_at l.checked_at then l ∷ m ∷ ms else m ∷ rest

unfoldable pub newest_first : List AutomationCheckLog → List AutomationCheckLog
unfolding insert_log
newest_first [] = []
newest_first (l ∷ ls) = insert_log l (newest_first ls)

abbrev pub is_log_of : ℕ → AutomationCheckLog → Bool
is_log_of automation_id l = l.automation_id == automation_id

unfoldable pub get_by_automation_id : ℕ → ℕ → ℕ → List AutomationCheckLog → List AutomationCheckLog
unfolding newest_first
get_by_automation_id automation_id limit offset ls =
    take limit (drop offset (newest_first (filter_where (is_log_of automation_id) ls)))

unfoldable pub count_by_automation_id : ℕ → List AutomationCheckLog → ℕ
count_by_automation_id automation_id = count_where (is_log_of automation_id)

unfoldable pub list_history : ℕ → ℕ → ℕ → ℕ → Action (List AutomationCheckLog × ℕ)
unfolding get_by_automation_id count_by_automation_id
list_history automation_id user_id limit offset = do
  automation ← get_automation_row automation_id
  raise_if (not (automation.user_id == user_id)) object_not_found
  items ← gets (λ db. get_by_automation_id automation_id limit offset db.check_logs)
  total ← gets (λ db. count_by_automation_id automation_id db.check_logs)
  pure (items, total)

-- A period with open or closed ends.
abbrev pub is_within : Option ℕ → Option ℕ → ℕ → Bool
is_within none none d = true
is_within (some from) none d = leb from d
is_within none (some to) d = leb d to
is_within (some from) (some to) d = leb from d && leb d to

-- All ticks and the failed ones.
unfoldable pub count_ticks : Option ℕ → Option ℕ → List AutomationCheckLog → ℕ × ℕ
count_ticks date_from date_to ls =
    let ticks = filter_where (λ l. is_within date_from date_to l.checked_at) ls in
    (length ticks, count_where (λ l. not l.succeeded) ticks)

-- The ticks of a page of automations, at most `limit` of each, the newest first.
unfoldable pub get_recent_by_automation_ids :
    List ℕ → ℕ → List AutomationCheckLog → ℕ → List AutomationCheckLog
unfolding get_by_automation_id
get_recent_by_automation_ids automation_ids limit ls automation_id =
    if is_in automation_id automation_ids then get_by_automation_id automation_id limit 0 ls else []
