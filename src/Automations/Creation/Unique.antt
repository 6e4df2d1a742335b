-- ===== src/Automations/Creation/Unique.antt =====
-- The unique index of the automations: the table holds no two of a user for one article.
use text.Mathlib.TextEquality.{eq_iff}
use plomio.Core.Enums.{Marketplace, ozon, wildberries}
use plomio.Database.AutomationTables.{Automation}
use plomio.Automations.Creation.{
  same_marketplace, is_text, List, ℕ, Bool, any_where, ◌∷◌, Option, false, some, String,
  filter_where, collides,
}
use plomio.Prelude.{
  ℕ, ◌≡◌, Bool, List, map, Option, false, any_where, refl, String, ◌++◌, [], arith, ◌==◌, ◌&&◌,
  none, any_where-append, update_first, update_where, ap, filter_where, Bool-cases, inl, inr, ◌∙◌,
}

-- What the index is on.
abbrev pub IndexKey : Type 0
IndexKey = ℕ × Marketplace × Option String

abbrev pub index_key : Automation → IndexKey
index_key a = (a.user_id, a.marketplace, a.article)

abbrev pub clashes : IndexKey → IndexKey → Bool
clashes (u, m, none) l = false
clashes (u, m, some s) (v, n, article) = (v == u) && (same_marketplace n m && is_text article s)

abbrev pub NoClash : List IndexKey → Type 0
NoClash [] = Unit
NoClash (k ∷ ks) = (any_where (clashes k) ks ≡ false) × NoClash ks

-- The table has no two automations of a user, a marketplace and an article.
abbrev pub IsUnique : List Automation → Type 0
IsUnique rows = NoClash (map index_key rows)

same_marketplace_sym : (m n : Marketplace) → same_marketplace m n ≡ same_marketplace n m
same_marketplace_sym ozon ozon = refl
same_marketplace_sym ozon wildberries = refl
same_marketplace_sym wildberries ozon = refl
same_marketplace_sym wildberries wildberries = refl

clashes_sym : (k l : IndexKey) → clashes k l ≡ clashes l k
clashes_sym (u, m, none) (v, n, none) = refl
clashes_sym (u, m, none) (v, n, some t) = ground arith
clashes_sym (u, m, some s) (v, n, none) = ground arith
clashes_sym (u, m, some s) (v, n, some t) =
    ground (arith, same_marketplace_sym m n, eq_iff s t, eq_iff t s)

NoClash-append :
    (ks : List IndexKey) (k : IndexKey)
    → NoClash ks
    → any_where (clashes k) ks ≡ false
    → NoClash (ks ++ k ∷ [])
NoClash-append [] k h e = (refl, tt)
NoClash-append (l ∷ ks) k h e = (
  ground (arith, any_where-append (clashes l) ks (k ∷ []), h, e, clashes_sym k l),
  NoClash-append ks k h.1 (ground (arith, e)),
)

-- Rows of the table, in their order.
any_clash-filter :
    (k : IndexKey) (p : Automation → Bool) (rows : List Automation)
    → any_where (clashes k) (map index_key rows) ≡ false
    → any_where (clashes k) (map index_key (filter_where p rows)) ≡ false
any_clash-filter k p [] e = refl
any_clash-filter k p (a ∷ rows) e = ground (arith, e, any_clash-filter k p rows)

pub filter-IsUnique :
    (p : Automation → Bool) (rows : List Automation)
    → IsUnique rows
    → IsUnique (filter_where p rows)
filter-IsUnique p [] h = tt
filter-IsUnique p (a ∷ rows) h = elim (Bool-cases (p a)) [
  | inl e ↦ rw e (any_clash-filter (index_key a) p rows h.0, filter-IsUnique p rows h.1)
  | inr e ↦ rw e (filter-IsUnique p rows h.1)
]

-- Changes of other columns.
pub update-keys :
    (p : Automation → Bool) (f : Automation → Automation) (rows : List Automation)
    → ((a : Automation) → index_key (f a) ≡ index_key a)
    → map index_key (update_where p f rows) ≡ map index_key rows
update-keys p f [] keep = refl
update-keys p f (a ∷ rows) keep = elim (Bool-cases (p a)) [
  | inl e ↦ ground (arith, e, keep a, update-keys p f rows keep)
  | inr e ↦ ground (arith, e, update-keys p f rows keep)
]

pub update_first-keys :
    (p : Automation → Bool) (f : Automation → Automation) (rows : List Automation)
    → ((a : Automation) → index_key (f a) ≡ index_key a)
    → map index_key (update_first p f rows) ≡ map index_key rows
update_first-keys p f [] keep = refl
update_first-keys p f (a ∷ rows) keep = elim (Bool-cases (p a)) [
  | inl e ↦ ground (arith, e, keep a)
  | inr e ↦ ground (arith, e, update_first-keys p f rows keep)
]

-- A row that the index accepts.
any_collides-keys :
    (a : Automation) (rows : List Automation)
    → any_where (clashes (index_key a)) (map index_key rows) ≡ any_where (collides a) rows
any_collides-keys a [] = refl
any_collides-keys a (b ∷ rows) = ground (arith, any_collides-keys a rows)

map_keys-append :
    (rows : List Automation) (a : Automation)
    → map index_key (rows ++ a ∷ []) ≡ map index_key rows ++ index_key a ∷ []
map_keys-append [] a = refl
map_keys-append (b ∷ rows) a = ap (λ ks. index_key b ∷ ks) (map_keys-append rows a)

pub append-IsUnique :
    (rows : List Automation) (a : Automation)
    → IsUnique rows
    → any_where (collides a) rows ≡ false
    → IsUnique (rows ++ a ∷ [])
append-IsUnique rows a h e =
    rw (map_keys-append rows a)
      (NoClash-append (map index_key rows) (index_key a) h (any_collides-keys a rows ∙ e))
