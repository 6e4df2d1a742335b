-- ===== src/Automations/Listings.antt =====
-- The lists of automations for users and administrators: `get_by_user_id`, `count_by_user_id`,
-- `_apply_user_filters`, `get_page_admin`, `count_admin`, `_apply_admin_filters`,
-- `_overdue_conditions`, `count_by_status`, `count_overdue`, `count_with_error` of
-- packages/automation/src/repository.py and `list_automations`,
-- `list_automations_with_recent_checks`, `list_automations_admin`, `get_admin_summary` of
-- packages/automation/src/service.py. `contains` stands for ILIKE with an escaped text,
-- `like` for ILIKE with a text as it is.
pub mod Paging
use plomio.Core.Enums.{Marketplace}
use plomio.Database.{Database, Action}
use plomio.Database.AutomationTables.{Automation, AutomationStatus, AutomationCheckLog, same_flag}
use plomio.Automations.Checks.{is_active}
use plomio.Automations.Creation.{same_marketplace}
use plomio.Automations.History.{get_recent_by_automation_ids, count_ticks}
use plomio.Prelude.{
  Bool, String, Option, ℕ, List, ◌||◌, take, count_where, false, true, map, ◌==◌, ◌&&◌, ◌∷◌, drop,
  leb, some, if◌then◌else◌, not, [], filter_where, is_some, ◌+◌, none, ltb, str_eq,
}

-- A filter that may not be set.
abbrev pub optional : {A : Type 0} → (A → Bool) → Option A → Bool
optional p none = true
optional p (some a) = p a

-- A test of a column that may be null, which fails then.
abbrev pub present : {A : Type 0} → (A → Bool) → Option A → Bool
present p none = false
present p (some a) = p a

abbrev pub same_status : AutomationStatus → AutomationStatus → Bool
same_status s t = same_flag (is_active s) (is_active t)

pub record AutomationListFilters : Type 0 where
  pub status : Option AutomationStatus
  pub in_stock : Option Bool
  pub price_from : Option ℕ
  pub price_to : Option ℕ
  pub search : Option String
  pub date_from : Option ℕ
  pub date_to : Option ℕ

pub record AdminAutomationFilters : Type 0 where
  pub automation_id : Option ℕ
  pub user_id : Option ℕ
  pub marketplace : Option Marketplace
  pub status : Option AutomationStatus
  pub in_stock : Option Bool
  pub overdue : Bool
  pub overdue_grace : ℕ
  pub has_error : Bool
  pub search : Option String
  pub date_from : Option ℕ
  pub date_to : Option ℕ

-- `ORDER BY created_at DESC`, and for administrators `created_at DESC, id`.
abbrev pub is_newer : Automation → Automation → Bool
is_newer a b = leb b.created_at a.created_at

abbrev pub is_before : Automation → Automation → Bool
is_before a b = ltb b.created_at a.created_at || ((a.created_at == b.created_at) && leb a.id b.id)

module _ (before : Automation → Automation → Bool) where
  unfoldable pub insert_row : Automation → List Automation → List Automation
  insert_row a [] = a ∷ []
  insert_row a (b ∷ bs) = let rest = insert_row a bs in if before a b then a ∷ b ∷ bs else b ∷ rest

  unfoldable pub in_order : List Automation → List Automation
  unfolding insert_row
  in_order [] = []
  in_order (a ∷ rows) = insert_row a (in_order rows)

-- `_overdue_conditions`
abbrev pub is_overdue : ℕ → ℕ → Automation → Bool
is_overdue now grace a =
    is_active a.status && (leb (a.next_check_at + grace) now && not (is_some a.pending_task_id))

module _ (contains like : String → String → Bool) where
  -- A search for the empty text is no filter.
  abbrev pub is_found : Automation → String → Bool
  is_found a s = str_eq s "" || (present (contains s) a.name || present (contains s) a.article)

  abbrev pub is_found_admin : Automation → String → Bool
  is_found_admin a s =
      str_eq s ""
      || (present (like s) a.name || (present (like s) a.article || like s a.input_value))

  -- `_apply_user_filters`
  abbrev pub passes_user : ℕ → Option AutomationListFilters → Automation → Bool
  passes_user user_id none a = a.user_id == user_id
  passes_user user_id (some f) a =
      (a.user_id == user_id)
      && (optional (same_status a.status) f.status
          && (optional (λ b. present (same_flag b) a.available) f.in_stock
              && (optional (λ p. present (leb p) a.price_kopecks) f.price_from
                  && (optional (λ p. present (λ k. leb k p) a.price_kopecks) f.price_to
                      && (optional (is_found a) f.search
                          && (optional (λ d. leb d a.created_at) f.date_from
                              && optional (λ d. leb a.created_at d) f.date_to))))))

  -- `_apply_admin_filters`
  abbrev pub passes_admin : ℕ → AdminAutomationFilters → Automation → Bool
  passes_admin now f a =
      optional (λ id. a.id == id) f.automation_id
      && (optional (λ u. a.user_id == u) f.user_id
          && (optional (same_marketplace a.marketplace) f.marketplace
              && (optional (same_status a.status) f.status
                  && (optional (λ b. present (same_flag b) a.available) f.in_stock
                      && ((not f.overdue || is_overdue now f.overdue_grace a)
                          && ((not f.has_error || is_some a.last_check_error)
                              && (optional (is_found_admin a) f.search
                                  && (optional (λ d. leb d a.created_at) f.date_from
                                      && optional (λ d. leb a.created_at d) f.date_to))))))))

  unfoldable pub list_automations :
      ℕ → ℕ → ℕ → Option AutomationListFilters → Database → List Automation × ℕ
  unfolding in_order
  list_automations user_id limit offset filters db = (
    take limit (
        drop offset
          (in_order is_newer (filter_where (passes_user user_id filters) db.automations))),
    count_where (passes_user user_id filters) db.automations,
  )

  -- `RECENT_CHECKS_LIMIT` is 5.
  unfoldable pub list_automations_with_recent_checks :
      ℕ
      → ℕ
      → ℕ
      → Option AutomationListFilters
      → Database
      → List (Automation × List AutomationCheckLog) × ℕ
  unfolding list_automations
  list_automations_with_recent_checks user_id limit offset filters db =
      let (rows, n) = list_automations user_id limit offset filters db in
      (
        map (λ a. (a, get_recent_by_automation_ids (map (λ a. a.id) rows) 5 db.check_logs a.id))
            rows,
        n,
      )

  unfoldable pub list_automations_admin :
      ℕ → AdminAutomationFilters → ℕ → ℕ → Database → List Automation × ℕ
  unfolding in_order
  list_automations_admin now filters limit offset db = (
    take limit
        (drop offset (in_order is_before (filter_where (passes_admin now filters) db.automations))),
    count_where (passes_admin now filters) db.automations,
  )

pub record AdminSummary : Type 0 where
  pub active : ℕ
  pub paused : ℕ
  pub overdue : ℕ
  pub with_error : ℕ
  pub checks : ℕ
  pub failed_checks : ℕ

unfoldable pub get_admin_summary : ℕ → Option ℕ → Option ℕ → ℕ → Database → AdminSummary
unfolding count_ticks
get_admin_summary now date_from date_to overdue_grace db =
    let (checks, failed_checks) = count_ticks date_from date_to db.check_logs in
    record {
      active = count_where (λ a. is_active a.status) db.automations;
      paused = count_where (λ a. not (is_active a.status)) db.automations;
      overdue = count_where (is_overdue now overdue_grace) db.automations;
      with_error = count_where (λ a. is_some a.last_check_error) db.automations;
      checks = checks;
      failed_checks = failed_checks;
    }
