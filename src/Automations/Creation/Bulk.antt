-- ===== src/Automations/Creation/Bulk.antt =====
-- The creation of many automations against the creation of one.
use mathlib.Core.List.{Memᴰ, List, ◌∷◌}
use text.Mathlib.TextEquality.{eq_iff}
use plomio.Core.Enums.{Marketplace, ozon, wildberries}
use plomio.Database.AutomationTables.{Automation}
use plomio.Automations.Creation.{
  same_marketplace, is_text, is_duplicate_of, Bool, true, some, str_eq, any_where, String, Option,
  filter_where, false,
}
use plomio.Automations.Creation.Batch.{
  is_text_in, is_raw_input, is_selected, is_shown, find_duplicates,
}
use plomio.Prelude.{
  ◌≡◌, Bool, ◌&&◌, List, refl, true, some, any_where, str_eq, none, arith, ap, ◌∙◌, Option-cases,
  Bool-cases, inl, inr, [], ◌==◌, Option, String, ◌||◌, filter_where, false,
}

any_of_member {ℓ} :
    {A : Type ℓ} (p : A → Bool) (xs : List A) (x : A)
    → Memᴰ x xs
    → p x ≡ true
    → any_where p xs ≡ true
any_of_member p [] x m h = elim m [ ]
any_of_member p (y ∷ ys) x (Memᴰ.head e) h = ground (arith, ap p e, h)
any_of_member p (y ∷ ys) x (Memᴰ.tail m) h = ground (arith, any_of_member p ys x m h)

same_marketplace-sym :
    (m n : Marketplace) → same_marketplace m n ≡ true → same_marketplace n m ≡ true
same_marketplace-sym ozon ozon h = h
same_marketplace-sym ozon wildberries h = h
same_marketplace-sym wildberries ozon h = h
same_marketplace-sym wildberries wildberries h = h

str_eq-sym : (s t : String) → str_eq s t ≡ true → str_eq t s ≡ true
str_eq-sym s t h = ground (arith, h, eq_iff s t, eq_iff t s)

is_text-sym : (t : Option String) (s : String) → is_text t s ≡ true → is_text (some s) s ≡ true
is_text-sym t s h = ground (arith, eq_iff s s)

-- A row shows that an entity exists.
abbrev shows_to : Option String → String → Automation → Bool
shows_to (some s) input_value a = is_text a.article s
shows_to none input_value a = str_eq a.input_value input_value

abbrev shows : Automation → Automation → Bool
shows e a = same_marketplace a.marketplace e.marketplace && shows_to e.article e.input_value a

shown-any : (e : Automation) (rows : List Automation) → is_shown rows e ≡ any_where (shows e) rows
shown-any e rows = elim (Option-cases e.article) [ inl n ↦ rw n refl | inr (s, n) ↦ rw n refl ]

duplicate-shows : (e a : Automation) → is_duplicate_of e a ≡ ((a.user_id == e.user_id) && shows e a)
duplicate-shows e a = elim (Option-cases e.article) [ inl n ↦ rw n refl | inr (s, n) ↦ rw n refl ]

-- The query selects every row that shows an entity of its batch to exist.
text_or_raw :
    (e : Automation) (entities : List Automation)
    → Memᴰ e entities
    → (a : Automation) → shows_to e.article e.input_value a ≡ true
    → (is_text_in a.article entities || any_where (is_raw_input a.input_value) entities) ≡ true
text_or_raw e entities member a h = elim (Option-cases e.article) [
  | inl n ↦
      let is_input : str_eq a.input_value e.input_value ≡ true = ground (arith, h, n) in
      let raw : is_raw_input a.input_value e ≡ true =
        rw n (str_eq-sym a.input_value e.input_value is_input) in
      ground (arith, any_of_member (is_raw_input a.input_value) entities e member raw)
  | inr (s, n) ↦
      let same : is_text a.article s ≡ true = ground (arith, h, n) in
      elim (Option-cases a.article) [
        | inl m ↦ absurd (ground (arith, same, m))
        | inr (t, m) ↦
            let is_t : str_eq t s ≡ true = ground (arith, same, m) in
            let text : is_text e.article t ≡ true = rw n (str_eq-sym t s is_t) in
            rw m (ground (arith, any_of_member (λ x. is_text x.article t) entities e member text))
      ]
]

shows-selected :
    (e : Automation) (entities : List Automation)
    → Memᴰ e entities
    → (a : Automation) → shows e a ≡ true
    → is_selected e.user_id entities a ≡ (a.user_id == e.user_id)
shows-selected e entities member a h =
    let place : same_marketplace a.marketplace e.marketplace ≡ true = ground (arith, h) in
    let shown : shows_to e.article e.input_value a ≡ true = ground (arith, h) in
    ground (
      arith,
      any_of_member (λ x. same_marketplace x.marketplace a.marketplace) entities e member
          (same_marketplace-sym a.marketplace e.marketplace place),
      text_or_raw e entities member a shown,
    )

not_selected :
    (e : Automation) (entities : List Automation) (a : Automation)
    → (a.user_id == e.user_id) ≡ false
    → is_selected e.user_id entities a ≡ false
not_selected e entities a u = ground (arith, u)

selected-shows :
    (e : Automation) (entities : List Automation)
    → Memᴰ e entities
    → (rows : List Automation)
    → any_where (shows e) (filter_where (is_selected e.user_id entities) rows)
      ≡ any_where (is_duplicate_of e) rows
selected-shows e entities member [] = refl
selected-shows e entities member (a ∷ rows) =
    let rest = selected-shows e entities member rows in
    let here = duplicate-shows e a in
    elim (Bool-cases (shows e a)) [
      | inl s ↦ elim (Bool-cases (is_selected e.user_id entities a)) [
        | inl c ↦ ground (arith, s, c, here, rest, shows-selected e entities member a s)
        | inr c ↦ ground (arith, s, c, here, rest, shows-selected e entities member a s)
      ]
      | inr s ↦ elim (Bool-cases (is_selected e.user_id entities a)) [
        | inl c ↦ ground (arith, s, c, here, rest)
        | inr c ↦ ground (arith, s, c, here, rest)
      ]
    ]

-- For an entity of a batch, the one query of find_duplicates for the whole batch shows it to exist
-- exactly where the condition of find_duplicate for it alone holds of some row.
pub find_duplicates-eq :
    (e : Automation) (entities : List Automation)
    → Memᴰ e entities
    → (rows : List Automation)
    → find_duplicates e.user_id entities rows e ≡ any_where (is_duplicate_of e) rows
unfolding find_duplicates
find_duplicates-eq e entities member rows =
    shown-any e (filter_where (is_selected e.user_id entities) rows)
    ∙ selected-shows e entities member rows
