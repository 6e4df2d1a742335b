-- ===== src/Billing/Pricing/Disjoint.antt =====
-- The ranges of the multiplier rules: `has_overlap` and `find_matching`
-- (packages/billing/src/repository.py).
use text.Mathlib.TextEquality.{eq_iff}
use mathlib.Core.List.{Memᴰ}
use plomio.Prelude.{
  ℕ, ◌+◌, ◌≤◌, ◌≡◌, refl, Bool, true, false, ◌&&◌, some, List, [], ◌∷◌, ◌++◌, String, str_eq, arith,
  count_where, filter_where, Bool-cases, inl, inr, ◌==◌, not, &&-eq_true, &&_intro, ◌∙◌, sym,
}
use plomio.Prelude.Int.{ℤ, leb_ℤ, leb_ℤ_trans}
use plomio.Database.{Database, PricingMultiplierRule}
use plomio.Billing.Pricing.{
  matches, overlaps, find_matching, has_overlap, create_pricing_rule, delete_pricing_rule,
}

-- No value of any dimension is priced by two rules.
abbrev pub IsDisjoint : List PricingMultiplierRule → Type 0
IsDisjoint rules = (code : String) (value : ℤ) → count_where (matches code value) rules ≤ 1

count-append {ℓ} :
    {A : Type ℓ} (p : A → Bool) (xs ys : List A)
    → count_where p (xs ++ ys) ≡ count_where p xs + count_where p ys
count-append p [] ys = omega arith
count-append p (x ∷ xs) ys = ground (arith, count-append p xs ys)

matches_parts :
    (code : String) (value : ℤ) (r : PricingMultiplierRule)
    → matches code value r ≡ true
    → (str_eq r.dimension_code code ≡ true)
      × (leb_ℤ r.value_min value ≡ true)
      × (leb_ℤ value r.value_max ≡ true)
unfolding matches
matches_parts code value r m =
    let (named, inside) =
      &&-eq_true (str_eq r.dimension_code code) (leb_ℤ r.value_min value && leb_ℤ value r.value_max)
        m in
    let (above, below) = &&-eq_true (leb_ℤ r.value_min value) (leb_ℤ value r.value_max) inside in
    (named, above, below)

-- A rule that prices a value of the new range overlaps the new rule.
overlaps_of_matches :
    (code code' : String) (low high value : ℤ) (r : PricingMultiplierRule)
    → str_eq code code' ≡ true
    → leb_ℤ low value ≡ true
    → leb_ℤ value high ≡ true
    → matches code' value r ≡ true
    → overlaps code low high r ≡ true
unfolding overlaps
overlaps_of_matches code code' low high value r same l u m =
    let (named, above, below) = matches_parts code' value r m in
    let e : r.dimension_code ≡ code =
      (eq_iff r.dimension_code code').0 named ∙ sym ((eq_iff code code').0 same) in
    &&_intro (str_eq r.dimension_code code) (leb_ℤ r.value_min high && leb_ℤ low r.value_max)
      ((eq_iff r.dimension_code code).1 e)
      (&&_intro (leb_ℤ r.value_min high) (leb_ℤ low r.value_max)
        (leb_ℤ_trans r.value_min value high above u) (leb_ℤ_trans low value r.value_max l below))

count-no_overlap :
    (code code' : String) (low high value : ℤ) (rules : List PricingMultiplierRule)
    → str_eq code code' ≡ true
    → leb_ℤ low value ≡ true
    → leb_ℤ value high ≡ true
    → has_overlap code low high rules ≡ false
    → count_where (matches code' value) rules ≡ 0
unfolding has_overlap
count-no_overlap code code' low high value [] same l u h = refl
count-no_overlap code code' low high value (r ∷ rules) same l u h = ground (
  arith,
  overlaps_of_matches code code' low high value r same l u,
  count-no_overlap code code' low high value rules same l u,
)

-- The new rule prices a value that no old rule prices.
count-new :
    (code code' : String) (value : ℤ) (rule : PricingMultiplierRule)
    (rules : List PricingMultiplierRule)
    → rule.dimension_code ≡ code
    → has_overlap code rule.value_min rule.value_max rules ≡ false
    → count_where (matches code' value) rules ≤ 1
    → count_where (matches code' value) (rules ++ rule ∷ []) ≤ 1
count-new code code' value rule rules named fits h = elim (Bool-cases (matches code' value rule)) [
  | inl e ↦
      let (same, l, u) = matches_parts code' value rule e in
      ground (
        arith,
        count-append (matches code' value) rules (rule ∷ []),
        count-no_overlap code code' rule.value_min rule.value_max value rules (rw named at same) l u
            fits,
      )
  | inr e ↦ ground (arith, count-append (matches code' value) rules (rule ∷ []))
]

-- If no value of a dimension is priced by two rules, then none is after create_pricing_rule,
-- whether it creates the rule or refuses it.
pub create_pricing_rule-IsDisjoint :
    (code : String) (low high : ℤ) (multiplier : ℕ) (db : Database)
    → IsDisjoint db.pricing_rules
    → IsDisjoint (create_pricing_rule code low high multiplier db).1.pricing_rules
unfolding create_pricing_rule
create_pricing_rule-IsDisjoint code low high multiplier db h c v =
    ground (arith, h c v, count-new code c v rule db.pricing_rules refl)
  where
    rule : PricingMultiplierRule
    rule = record {
      id = db.next_id;
      dimension_code = code;
      value_min = low;
      value_max = high;
      multiplier = multiplier;
    }

count-filter-le {ℓ} :
    {A : Type ℓ} (p q : A → Bool) (xs : List A)
    → count_where p (filter_where q xs) ≤ count_where p xs
count-filter-le p q [] = omega arith
count-filter-le p q (x ∷ xs) = ground (arith, count-filter-le p q xs)

-- If no value of a dimension is priced by two rules, then none is after delete_pricing_rule.
pub delete_pricing_rule-IsDisjoint :
    (rule_id : ℕ) (db : Database)
    → IsDisjoint db.pricing_rules
    → IsDisjoint (delete_pricing_rule rule_id db).1.pricing_rules
unfolding delete_pricing_rule
delete_pricing_rule-IsDisjoint rule_id db h c v =
    ground
      (arith, h c v, count-filter-le (matches c v) (λ r. not (r.id == rule_id)) db.pricing_rules)

count_pos {ℓ} :
    {A : Type ℓ} (p : A → Bool) (xs : List A) (x : A)
    → Memᴰ x xs
    → p x ≡ true
    → 1 ≤ count_where p xs
count_pos p [] x m h = elim m [ ]
count_pos p (y ∷ xs) x (Memᴰ.head e) h = rw (← e, h) (omega arith)
count_pos p (y ∷ xs) x (Memᴰ.tail m) h = omega (arith, count_pos p xs x m h)

-- If at most one rule matches a value, then find_matching returns any rule of the table that
-- matches it.
pub find_matching_unique :
    (code : String) (value : ℤ) (rules : List PricingMultiplierRule) (r : PricingMultiplierRule)
    → count_where (matches code value) rules ≤ 1
    → Memᴰ r rules
    → matches code value r ≡ true
    → find_matching code value rules ≡ some r
unfolding find_matching
find_matching_unique code value [] r h m t = elim m [ ]
find_matching_unique code value (x ∷ rules) r h (Memᴰ.head e) t = rw (← e, t) refl
find_matching_unique code value (x ∷ rules) r h (Memᴰ.tail m) t = ground (
  arith,
  count_pos (matches code value) rules r m t,
  find_matching_unique code value rules r (omega arith) m t,
)
