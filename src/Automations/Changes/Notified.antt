-- ===== src/Automations/Changes/Notified.antt =====
-- Which changes of a check are worth a notice, field by field.
use plomio.Database.AutomationTables.{
  Automation, ProductPagePayload, TrackedField, price, discounted_price, original_price, title,
  rating, review_count, seller_name, FieldValue, Snapshot, Change, is_value, BaselineAttribute,
}
use plomio.Automations.Changes.{
  Tracked, previous_value, diff_fields, diff_field, filter_notifiable_changes, is_notifiable, ℕ,
  Option, Bool, List, false, any_where, some, leb, not, ◌∷◌, push, diff_value, tracked, kopecks,
  baseline_price_kopecks, boolean, numeric, baseline_original_price_kopecks,
  baseline_discounted_price_kopecks, tracked_fields, text, BaselineAttribute, diff, true,
}
use plomio.Prelude.{
  ℕ, Option, Bool, ◌==◌, false, List, ◌||◌, any_where, ◌≡◌, not, ◌&&◌, leb, none, ◌*◌, arith, ◌+◌,
  [], refl, ◌∙◌, ap, Bool-cases, inl, inr, true,
}

abbrev field_index : TrackedField → ℕ
field_index price = 0
field_index discounted_price = 1
field_index original_price = 2
field_index TrackedField.in_stock = 3
field_index title = 4
field_index rating = 5
field_index review_count = 6
field_index seller_name = 7

abbrev pub is_change_of : TrackedField → Change → Bool
is_change_of f c = field_index c.field == field_index f

abbrev changed_since : Option Snapshot → TrackedField → FieldValue → Bool
changed_since none f v = false
changed_since (some s) f v = not (is_value (s f) v)

pub is_change_of_self : (c : Change) → is_change_of c.field c ≡ true
is_change_of_self c = ground arith

-- A price has fallen to the threshold of its baseline, and is not the price of the check before.
abbrev price_falls : ℕ → Option ℕ → Option ℕ → Option FieldValue → Bool
price_falls percent baseline none previous = false
price_falls percent none (some new_price) previous = false
price_falls percent (some baseline) (some new_price) previous =
    leb (new_price * 100 + baseline * percent) (baseline * 100)
    && (not (new_price == baseline) && not (is_value previous (FieldValue.number new_price)))

abbrev number_changed : Option Snapshot → TrackedField → Option ℕ → Bool
number_changed s f none = false
number_changed s f (some n) = changed_since s f (FieldValue.number n)

abbrev restocked : Option Bool → Bool → Bool
restocked none now_available = false
restocked (some available) now_available = not available && now_available

-- Whether a check that finds the page tells the user of the field.
abbrev pub tells_of : Automation → ProductPagePayload → Option Snapshot → TrackedField → Bool
tells_of a p s price =
    price_falls a.price_drop_threshold_percent a.baseline_price p.price_kopecks
      (previous_value s price)
tells_of a p s discounted_price =
    price_falls a.price_drop_threshold_percent a.baseline_discounted_price
      p.discounted_price_kopecks (previous_value s discounted_price)
tells_of a p s original_price =
    price_falls a.price_drop_threshold_percent a.baseline_original_price p.original_price_kopecks
      (previous_value s original_price)
tells_of a p s TrackedField.in_stock =
    changed_since s TrackedField.in_stock (FieldValue.flag p.available)
    || restocked a.available p.available
tells_of a p s title = changed_since s title (FieldValue.word p.title)
tells_of a p s rating = number_changed s rating p.rating
tells_of a p s review_count = number_changed s review_count p.review_count
tells_of a p s seller_name = changed_since s seller_name (FieldValue.word p.seller_name)

abbrev is_told : TrackedField → Option Change → Bool
is_told f none = false
is_told f (some c) = is_change_of f c && is_notifiable c

told-push :
    (f : TrackedField) (c : Option Change) (cs : List Change)
    → any_where (is_change_of f) (filter_notifiable_changes (push c cs))
      ≡ (is_told f c || any_where (is_change_of f) (filter_notifiable_changes cs))
unfolding filter_notifiable_changes
told-push f none cs = refl
told-push f (some c) cs = elim (Bool-cases (is_notifiable c)) [
  | inl e ↦ ground (arith, e)
  | inr e ↦ ground (arith, e)
]

-- A field is told of if some row of the table tells of it.
told-diff_fields :
    (f : TrackedField) (a : Automation) (p : ProductPagePayload) (s : Option Snapshot)
    (ts : List Tracked)
    → any_where (is_change_of f) (filter_notifiable_changes (diff_fields a p s ts).0)
      ≡ any_where (λ t. is_told f (diff_field a p s t).0) ts
unfolding diff_fields
told-diff_fields f a p s [] = unfold filter_notifiable_changes in refl
told-diff_fields f a p s (t ∷ ts) =
    told-push f (diff_field a p s t).0 (diff_fields a p s ts).0
    ∙ ap (λ b. is_told f (diff_field a p s t).0 || b) (told-diff_fields f a p s ts)

or_false : (b : Bool) → (b || false) ≡ b
or_false b = ground arith

told-other :
    (f : TrackedField) (a : Automation) (p : ProductPagePayload) (s : Option Snapshot) (t : Tracked)
    → (field_index t.field == field_index f) ≡ false
    → is_told f (diff_field a p s t).0 ≡ false
unfolding diff_field diff_value
told-other f a p s t e = ground (arith, e)

module _ (a : Automation) (p : ProductPagePayload) (s : Option Snapshot) where
  told-price :
      is_told price (diff_field a p s (tracked price kopecks (some baseline_price_kopecks))).0
      ≡ tells_of a p s price
  unfolding diff_field
  told-price = ground arith

  told-discounted :
      is_told discounted_price
        (diff_field a p s
          (tracked discounted_price kopecks (some baseline_discounted_price_kopecks))).0
      ≡ tells_of a p s discounted_price
  unfolding diff_field
  told-discounted = ground arith

  told-original :
      is_told original_price
        (diff_field a p s (tracked original_price kopecks (some baseline_original_price_kopecks))).0
      ≡ tells_of a p s original_price
  unfolding diff_field
  told-original = ground arith

  told-in_stock :
      is_told TrackedField.in_stock
        (diff_field a p s
          (tracked TrackedField.in_stock boolean (some BaselineAttribute.in_stock))).0
      ≡ tells_of a p s TrackedField.in_stock
  unfolding diff_field
  told-in_stock = ground arith

  told-title : is_told title (diff_field a p s (tracked title text none)).0 ≡ tells_of a p s title
  unfolding diff_field
  told-title = ground arith

  told-rating :
      is_told rating (diff_field a p s (tracked rating numeric none)).0 ≡ tells_of a p s rating
  unfolding diff_field
  told-rating = ground arith

  told-review_count :
      is_told review_count (diff_field a p s (tracked review_count numeric none)).0
      ≡ tells_of a p s review_count
  unfolding diff_field
  told-review_count = ground arith

  told-seller_name :
      is_told seller_name (diff_field a p s (tracked seller_name text none)).0
      ≡ tells_of a p s seller_name
  unfolding diff_field
  told-seller_name = ground arith

  -- The rows of the other fields add nothing.
  told-at :
      (f : TrackedField) (ts : List Tracked)
      → any_where (λ t. is_told f (diff_field a p s t).0) ts
        ≡ any_where
            (λ t. (field_index t.field == field_index f) && is_told f (diff_field a p s t).0)
            ts
  told-at f [] = refl
  told-at f (t ∷ ts) = elim (Bool-cases (field_index t.field == field_index f)) [
    | inl e ↦ rw e (ap (λ b. is_told f (diff_field a p s t).0 || b) (told-at f ts))
    | inr e ↦ rw (e, told-other f a p s t e) (told-at f ts)
  ]

  told-rows :
      (f : TrackedField)
      → any_where
          (λ t. (field_index t.field == field_index f) && is_told f (diff_field a p s t).0)
          tracked_fields
        ≡ tells_of a p s f
  told-rows price = or_false _ ∙ told-price
  told-rows discounted_price = or_false _ ∙ told-discounted
  told-rows original_price = or_false _ ∙ told-original
  told-rows TrackedField.in_stock = or_false _ ∙ told-in_stock
  told-rows title = or_false _ ∙ told-title
  told-rows rating = or_false _ ∙ told-rating
  told-rows review_count = or_false _ ∙ told-review_count
  told-rows seller_name = or_false _ ∙ told-seller_name

  -- Field by field, the changes of a check that are worth a notice are those of an independent
  -- rule. A price counts where it has fallen by the threshold or more from its starting price,
  -- differs from it, and is not the price of the check before. The stock counts where it differs
  -- from the check before, or where the product was out of stock and is back. Any other field
  -- counts where it is there and differs from the check before. Without a check before only prices
  -- and the return to stock count.
  pub filter_notifiable_changes-tells :
      (f : TrackedField)
      → any_where (is_change_of f) (filter_notifiable_changes (diff a p s).0) ≡ tells_of a p s f
  unfolding diff
  filter_notifiable_changes-tells f =
      told-diff_fields f a p s tracked_fields ∙ (told-at f tracked_fields ∙ told-rows f)
