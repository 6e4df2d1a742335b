-- ===== src/Automations/Listings/Paging.antt =====
-- The pages of a list and the count that goes with them.
use plomio.Database.{Database}
use plomio.Database.AutomationTables.{Automation}
use plomio.Automations.Listings.{
  insert_row, in_order, is_newer, list_automations, AutomationListFilters, passes_user, List, Bool,
  ℕ, String, Option, filter_where, ◌∷◌, count_where, leb, drop,
}
use plomio.Prelude.{
  String, Bool, ℕ, List, length, Option, ◌≡◌, filter_where, suc, if◌then◌else◌, count_where, ◌∙◌,
  arith, leb, ap, ◌-◌, [], drop, refl, length-drop, take-length, filter-count,
}

module _ (before : Automation → Automation → Bool) where
  insert_row-length :
      (a : Automation) (rows : List Automation)
      → length (insert_row before a rows) ≡ suc (length rows)
  unfolding insert_row
  insert_row-length a [] = refl
  insert_row-length a (b ∷ rows) = ground (arith, insert_row-length a rows)

  in_order-length : (rows : List Automation) → length (in_order before rows) ≡ length rows
  unfolding in_order
  in_order-length [] = refl
  in_order-length (a ∷ rows) =
      insert_row-length a (in_order before rows) ∙ ap suc (in_order-length rows)

-- The page of a listing is full, or holds what is left of the total after the offset.
pub list_automations-length :
    (contains like : String → String → Bool) (user_id limit offset : ℕ)
    (filters : Option AutomationListFilters) (db : Database)
    → let (page, total) = list_automations contains like user_id limit offset filters db in
      length page ≡ (if leb limit (total - offset) then limit else total - offset)
unfolding list_automations
list_automations-length contains like user_id limit offset filters db =
    let chosen = filter_where (passes_user contains like user_id filters) db.automations in
    let size : length (drop offset (in_order is_newer chosen))
        ≡ count_where (passes_user contains like user_id filters) db.automations - offset =
      length-drop offset (in_order is_newer chosen)
      ∙ ap (λ n. n - offset)
          (in_order-length is_newer chosen
            ∙ filter-count (passes_user contains like user_id filters) db.automations) in
    take-length limit (drop offset (in_order is_newer chosen))
    ∙ ap (λ n. if leb limit n then limit else n) size
