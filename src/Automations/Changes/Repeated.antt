-- ===== src/Automations/Changes/Repeated.antt =====
-- A check that finds the page of the check before.
use text.Mathlib.TextEquality.{eq_iff}
use plomio.Database.AutomationTables.{
  Automation, ProductPagePayload, TrackedField, price, discounted_price, original_price, title,
  rating, review_count, seller_name, FieldValue, BaselineAttribute, Snapshot, Change, same_flag,
}
use plomio.Automations.Changes.{
  Tracked, BaselineUpdate, build_snapshot, diff, diff_fields, diff_field, filter_notifiable_changes,
  push, Bool, List, true, any_where, some, false, [], ◌∷◌, Option, tracked, boolean, tracked_fields,
}
use plomio.Automations.Changes.Notified.{
  filter_notifiable_changes-tells, tells_of, is_change_of, is_change_of_self,
}
use plomio.Prelude.{
  Bool, ◌≡◌, List, any_where, some, true, false, [], ◌∙◌, arith, refl, Option, ap, take, ◌++◌, drop,
}
use plomio.Automations.Checks.{set_baselines, set_baseline}

same_flag_refl : (b : Bool) → same_flag b b ≡ true
same_flag_refl true = refl
same_flag_refl false = refl

same_flag-eq : (b c : Bool) → same_flag b c ≡ true → b ≡ c
same_flag-eq b c e = ground arith

module _ (a : Automation) (p : ProductPagePayload) where
  -- Nothing is told of a page that the snapshot and the availability agree with.
  tells_none :
      (f : TrackedField)
      → a.available ≡ some p.available
      → tells_of a p (some (build_snapshot p)) f ≡ false
  tells_none price e = ground arith
  tells_none discounted_price e = ground arith
  tells_none original_price e = ground arith
  tells_none TrackedField.in_stock e = ground (arith, e, same_flag_refl p.available)
  tells_none title e = ground (arith, (eq_iff p.title p.title).1 refl)
  tells_none rating e = ground arith
  tells_none review_count e = ground arith
  tells_none seller_name e = ground (arith, (eq_iff p.seller_name p.seller_name).1 refl)

nothing_told :
    (cs : List Change) → ((f : TrackedField) → any_where (is_change_of f) cs ≡ false) → cs ≡ []
nothing_told [] none_of = refl
nothing_told (c ∷ cs) none_of =
    let self = is_change_of_self c in let other = none_of c.field in absurd (ground arith)

-- A page that is the page of the check before, with the stock of the row, tells nothing.
pub filter_notifiable_changes-repeated :
    (a : Automation) (p : ProductPagePayload)
    → a.available ≡ some p.available
    → filter_notifiable_changes (diff a p (some (build_snapshot p))).0 ≡ []
filter_notifiable_changes-repeated a p e =
    nothing_told (filter_notifiable_changes (diff a p (some (build_snapshot p))).0)
      λ f. filter_notifiable_changes-tells a p (some (build_snapshot p)) f ∙ tells_none a p f e

-- What the updates leave in the column `in_stock`.
available_step : BaselineUpdate → Option Bool → Option Bool
available_step (BaselineAttribute.in_stock, FieldValue.flag b) o = some b
available_step _ o = o

available_after : List BaselineUpdate → Option Bool → Option Bool
unfolding available_step
available_after [] o = o
available_after (u ∷ us) o = available_after us (available_step u o)

set_baseline-available :
    (u : BaselineUpdate) (a : Automation)
    → (set_baseline u a).available ≡ available_step u a.available
unfolding available_step
set_baseline-available (BaselineAttribute.in_stock, FieldValue.flag b) a = refl
set_baseline-available _ a = ground arith

set_baselines-available :
    (us : List BaselineUpdate) (a : Automation)
    → (set_baselines us a).available ≡ available_after us a.available
unfolding set_baselines available_after
set_baselines-available [] a = refl
set_baselines-available (u ∷ us) a =
    set_baselines-available us (set_baseline u a)
    ∙ ap (available_after us) (set_baseline-available u a)

-- The updates of the other fields leave it.
abbrev is_in_stock : Option BaselineAttribute → Bool
is_in_stock (some BaselineAttribute.in_stock) = true
is_in_stock _ = false

available_after-push :
    (a : Automation) (p : ProductPagePayload) (s : Option Snapshot) (t : Tracked)
    (us : List BaselineUpdate) (o : Option Bool)
    → is_in_stock t.baseline_attribute ≡ false
    → available_after (push (diff_field a p s t).1 us) o ≡ available_after us o
unfolding available_after diff_field
available_after-push a p s t us o e = ground (arith, e)

abbrev stock_row : Tracked
stock_row = tracked TrackedField.in_stock boolean (some BaselineAttribute.in_stock)

available_after-stock :
    (a : Automation) (p : ProductPagePayload) (s : Option Snapshot) (us : List BaselineUpdate)
    → available_after (push (diff_field a p s stock_row).1 us) a.available
      ≡ available_after us (some p.available)
unfolding available_after available_step diff_field
available_after-stock a p s us = ground (arith, same_flag-eq p.available)

module _ (a : Automation) (p : ProductPagePayload) (s : Option Snapshot) where
  others_keep :
      (ts : List Tracked) (o : Option Bool)
      → any_where (λ t. is_in_stock t.baseline_attribute) ts ≡ false
      → available_after (diff_fields a p s ts).1 o ≡ o
  unfolding diff_fields
  others_keep [] o e = unfold available_after in refl
  others_keep (t ∷ ts) o e =
      available_after-push a p s t (diff_fields a p s ts).1 o (ground (arith, e))
      ∙ others_keep ts o (ground (arith, e))

  -- The row of `in_stock` sets the column, wherever it stands among others.
  stock_sets :
      (before after : List Tracked)
      → any_where (λ t. is_in_stock t.baseline_attribute) before ≡ false
      → any_where (λ t. is_in_stock t.baseline_attribute) after ≡ false
      → available_after (diff_fields a p s (before ++ stock_row ∷ after)).1 a.available
        ≡ some p.available
  unfolding diff_fields
  stock_sets [] after d e =
      available_after-stock a p s (diff_fields a p s after).1
      ∙ others_keep after (some p.available) e
  stock_sets (t ∷ before) after d e =
      available_after-push a p s t (diff_fields a p s (before ++ stock_row ∷ after)).1 a.available
        (ground (arith, d))
      ∙ stock_sets before after (ground (arith, d)) e

  -- After the updates the column `in_stock` has the availability of the page.
  pub set_baselines-diff :
      (b : Automation)
      → b.available ≡ a.available
      → (set_baselines (diff a p s).1 b).available ≡ some p.available
  unfolding diff
  set_baselines-diff b e =
      set_baselines-available (diff a p s).1 b
      ∙ (ap (available_after (diff a p s).1) e
          ∙ stock_sets (take 3 tracked_fields) (drop 4 tracked_fields) refl refl)
