-- ===== src/Automations/Changes.antt =====
-- What a check finds: `TRACKED_FIELDS`, `_build_snapshot`, `_diff_against_previous_and_baseline` and
-- `filter_notifiable_changes` (packages/automation/src/service.py). The threshold is compared in
-- whole numbers: the columns have 32 bits, and there the division in floats decides the same way.
pub mod Notified
pub mod Repeated
use plomio.Database.AutomationTables.{
  Automation, ProductPagePayload, TrackedField, TrackedFieldKind, BaselineAttribute, FieldValue,
  Snapshot, Change, is_value, same_value, price, discounted_price, original_price, title, rating,
  review_count, seller_name, kopecks, boolean, numeric, text, baseline_price_kopecks,
  baseline_discounted_price_kopecks, baseline_original_price_kopecks,
}
use Prim.Native.Nat.{ℕ}
use plomio.Prelude.{
  Bool, ℕ, Option, List, is_some, false, some, none, leb, not, true, any_where, ◌∷◌, filter_where,
  [], if◌then◌else◌, ◌&&◌, ◌||◌, ◌*◌, ◌+◌,
}

-- A row of `TRACKED_FIELDS`; the attribute of the page goes by the field.
pub record Tracked : Type 0 where
  pub field : TrackedField
  pub kind : TrackedFieldKind
  pub baseline_attribute : Option BaselineAttribute

abbrev pub tracked : TrackedField → TrackedFieldKind → Option BaselineAttribute → Tracked
tracked field kind attribute = record { field = field; kind = kind; baseline_attribute = attribute }

abbrev pub tracked_fields : List Tracked
tracked_fields =
    tracked price kopecks (some baseline_price_kopecks)
    ∷ tracked discounted_price kopecks (some baseline_discounted_price_kopecks)
    ∷ tracked original_price kopecks (some baseline_original_price_kopecks)
    ∷ tracked TrackedField.in_stock boolean (some BaselineAttribute.in_stock)
    ∷ tracked title text none
    ∷ tracked rating numeric none
    ∷ tracked review_count numeric none
    ∷ tracked seller_name text none
    ∷ []

abbrev pub number_of : Option ℕ → Option FieldValue
number_of none = none
number_of (some n) = some (FieldValue.number n)

abbrev pub flag_of : Option Bool → Option FieldValue
flag_of none = none
flag_of (some b) = some (FieldValue.flag b)

-- `getattr(payload, payload_attribute)`
abbrev pub payload_value : ProductPagePayload → TrackedField → Option FieldValue
payload_value p price = number_of p.price_kopecks
payload_value p discounted_price = number_of p.discounted_price_kopecks
payload_value p original_price = number_of p.original_price_kopecks
payload_value p TrackedField.in_stock = some (FieldValue.flag p.available)
payload_value p title = some (FieldValue.word p.title)
payload_value p rating = number_of p.rating
payload_value p review_count = number_of p.review_count
payload_value p seller_name = some (FieldValue.word p.seller_name)

-- `_build_snapshot`
abbrev pub build_snapshot : ProductPagePayload → Snapshot
build_snapshot p = payload_value p

-- `getattr(automation, baseline_attribute)`
abbrev pub baseline_value : Automation → BaselineAttribute → Option FieldValue
baseline_value a baseline_price_kopecks = number_of a.baseline_price
baseline_value a baseline_discounted_price_kopecks = number_of a.baseline_discounted_price
baseline_value a baseline_original_price_kopecks = number_of a.baseline_original_price
baseline_value a BaselineAttribute.in_stock = flag_of a.available

-- `previous_snapshot.get(field.value) if previous_snapshot else None`
abbrev pub previous_value : Option Snapshot → TrackedField → Option FieldValue
previous_value none field = none
previous_value (some s) field = s field

-- `new_value <= baseline_value * (100 - percent) / 100`; both are numbers at a kopecks field.
abbrev pub is_dropped : ℕ → FieldValue → FieldValue → Bool
is_dropped percent (FieldValue.number baseline) (FieldValue.number new_value) =
    leb (new_value * 100 + baseline * percent) (baseline * 100)
is_dropped percent _ _ = false

abbrev pub is_true : FieldValue → Bool
is_true (FieldValue.flag b) = b
is_true _ = false

abbrev pub BaselineUpdate : Type 0
BaselineUpdate = BaselineAttribute × FieldValue

-- The threshold and the update of the baseline where the new value differs from it.
unfoldable pub differ :
    TrackedFieldKind
    → ℕ
    → BaselineAttribute
    → FieldValue
    → FieldValue
    → Bool × Option BaselineUpdate
differ kopecks percent attribute baseline new_value = (is_dropped percent baseline new_value, none)
differ boolean percent attribute baseline new_value =
    (is_true new_value, some (attribute, new_value))
differ _ percent attribute baseline new_value = (false, none)

unfoldable pub compare_baseline : Tracked → Automation → FieldValue → Bool × Option BaselineUpdate
unfolding differ
compare_baseline t a new_value = elim t.baseline_attribute [
  | none ↦ (false, none)
  | some attribute ↦ elim (baseline_value a attribute) [
    | none ↦ (false, some (attribute, new_value))
    | some baseline ↦
        if same_value new_value baseline
        then (false, none)
        else differ t.kind a.price_drop_threshold_percent attribute baseline new_value
  ]
]

abbrev pub change_to : TrackedField → Option FieldValue → FieldValue → Bool → Change
change_to field old_value new_value breached = record {
  field = field;
  old_value = old_value;
  new_value = new_value;
  threshold_breached = breached;
}

-- One round of the loop over `TRACKED_FIELDS`.
unfoldable pub diff_value :
    Tracked → Automation → Option Snapshot → FieldValue → Option Change × Option BaselineUpdate
unfolding compare_baseline
diff_value t a previous_snapshot new_value =
    let previous = previous_value previous_snapshot t.field in
    let (breached, update) = compare_baseline t a new_value in
    let field_changed = is_some previous_snapshot && not (is_value previous new_value) in
    (
      if field_changed || breached
          then some (change_to t.field previous new_value breached)
          else none,
      update,
    )

unfoldable pub diff_field :
    Automation
    → ProductPagePayload
    → Option Snapshot
    → Tracked
    → Option Change × Option BaselineUpdate
unfolding diff_value
diff_field a payload previous_snapshot t = elim (payload_value payload t.field) [
  | none ↦ (none, none)
  | some new_value ↦ diff_value t a previous_snapshot new_value
]

abbrev pub push {ℓ} : {A : Type ℓ} → Option A → List A → List A
push none xs = xs
push (some x) xs = x ∷ xs

unfoldable pub diff_fields :
    Automation
    → ProductPagePayload
    → Option Snapshot
    → List Tracked
    → List Change × List BaselineUpdate
unfolding diff_field
diff_fields a payload previous_snapshot [] = ([], [])
diff_fields a payload previous_snapshot (t ∷ ts) =
    let (change, update) = diff_field a payload previous_snapshot t in
    let (changes, updates) = diff_fields a payload previous_snapshot ts in
    (push change changes, push update updates)

-- `_diff_against_previous_and_baseline`, less the flag that some change has passed the threshold.
unfoldable pub diff :
    Automation → ProductPagePayload → Option Snapshot → List Change × List BaselineUpdate
unfolding diff_fields
diff a payload previous_snapshot = diff_fields a payload previous_snapshot tracked_fields

abbrev pub has_any : List Change → Bool
has_any [] = false
has_any (c ∷ cs) = true

-- `any(change['threshold_breached'] for change in changes)`
abbrev pub any_breached : List Change → Bool
any_breached = any_where (λ c. c.threshold_breached)

abbrev pub is_kopecks_field : TrackedField → Bool
is_kopecks_field price = true
is_kopecks_field discounted_price = true
is_kopecks_field original_price = true
is_kopecks_field _ = false

abbrev pub is_notifiable : Change → Bool
is_notifiable c =
    not (is_kopecks_field c.field)
    || (c.threshold_breached && not (is_value c.old_value c.new_value))

unfoldable pub filter_notifiable_changes : List Change → List Change
filter_notifiable_changes = filter_where is_notifiable
