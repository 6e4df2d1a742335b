-- ===== src/Notifications/Gates.antt =====
-- When the filter of a preference lets a notice through (`_passes_filter` and
-- `derive_gating_fields`), said of the fields themselves.
use mathlib.Core.List.{Memᴰ}
use text.Mathlib.TextEquality.{eq_iff}
use plomio.Prelude.{
  [], ◌∷◌, none, some, inl, inr, true, false, List, String, ◌≡◌, ◌⊎◌, Option, ap, arith, refl,
  Bool-cases, str_eq, ◌∙◌, any_where-cases, All, All-imp,
}
use plomio.Notifications.{
  Catalog, NotificationEventPreference, has_text, fields_of, accepts, derive_gating_fields, passes,
}

-- The notice has one of the fields, or there are none to have.
abbrev pub LetsThrough : List String → List String → Type 0
LetsThrough fields changed_fields =
    (fields ≡ []) ⊎ ((f : String) × Memᴰ f fields × Memᴰ f changed_fields)

abbrev pub Blocks : List String → List String → Type 0
Blocks fields changed_fields = (¬ (fields ≡ [])) × All (λ f. ¬ Memᴰ f changed_fields) fields

-- The field of a variable is among `fields` exactly where the template uses the variable.
abbrev pub IsCovered : List String → List String → String × Option String → Type 0
IsCovered used fields (name, none) = Unit
IsCovered used fields (name, some f) = (¬ Memᴰ name used) ⊎ Memᴰ f fields

pub record AreFieldsOf (used : List String) (variables : List (String × Option String))
    (fields : List String) : Type 0 where
  pub sound : All (λ f. (name : String) × Memᴰ (name, some f) variables × Memᴰ name used) fields
  pub covered : All (IsCovered used fields) variables

module _ (catalog : Catalog) where
  -- The fields that decide: those of the variables that the template uses, or those chosen in the
  -- preference where it has no template or an empty one.
  abbrev pub AreGates : NotificationEventPreference → String → List String → Type 0
  AreGates p event_code fields =
      (((p.template ≡ none) ⊎ (p.template ≡ some "")) × (fields ≡ p.fields))
      ⊎ ((template : String) × (p.template ≡ some template)
          × (¬ (template ≡ ""))
          × AreFieldsOf (catalog.get_used_variables template)
              (catalog.get_template_variables event_code) fields)

has_text-cases :
    (s : String) (xs : List String)
    → ((has_text s xs ≡ true) × Memᴰ s xs) ⊎ ((has_text s xs ≡ false) × (¬ Memᴰ s xs))
has_text-cases s [] = inr (refl, λ m. elim m [ ])
has_text-cases s (x ∷ xs) = elim (Bool-cases (str_eq s x)) [
  | inl h ↦ inl (ground (arith, h), Memᴰ.head ((eq_iff s x).0 h))
  | inr h ↦ elim (has_text-cases s xs) [
    | inl (e, m) ↦ inl (ground (arith, h, e), Memᴰ.tail m)
    | inr (e, absent) ↦ inr (
      ground (arith, h, e),
      λ m. elim m [ Memᴰ.head k ↦ cc (h, (eq_iff s x).1 k) | Memᴰ.tail m ↦ absent m ],
    )
  ]
]

has_text-Memᴰ : (s : String) (xs : List String) → has_text s xs ≡ true → Memᴰ s xs
has_text-Memᴰ s xs h = elim (has_text-cases s xs) [
  | inl (e, m) ↦ m
  | inr (e, absent) ↦ absurd (cc (e, h))
]

not_text-Memᴰ : (s : String) (xs : List String) → has_text s xs ≡ false → ¬ Memᴰ s xs
not_text-Memᴰ s xs h = elim (has_text-cases s xs) [
  | inl (e, m) ↦ absurd (cc (e, h))
  | inr (e, absent) ↦ absent
]

accepts-cases :
    (fields changed_fields : List String)
    → ((accepts fields changed_fields ≡ true) × LetsThrough fields changed_fields)
      ⊎ ((accepts fields changed_fields ≡ false) × Blocks fields changed_fields)
accepts-cases [] changed_fields = inl (refl, inl refl)
accepts-cases (f ∷ fields) changed_fields =
    elim (any_where-cases (λ s. has_text s changed_fields) (f ∷ fields)) [
      | inl (e, (g, member, h)) ↦ inl (e, inr (g, member, has_text-Memᴰ g changed_fields h))
      | inr (e, over) ↦
          inr
            (e, ((λ k. cc k), All-imp (f ∷ fields) (λ g k. not_text-Memᴰ g changed_fields k) over))
    ]

-- The fields stay covered where one more is in front.
IsCovered-cons :
    (used fields : List String) (f : String) (v : String × Option String)
    → IsCovered used fields v
    → IsCovered used (f ∷ fields) v
IsCovered-cons used fields f (name, none) c = tt
IsCovered-cons used fields f (name, some g) (inl c) = inl c
IsCovered-cons used fields f (name, some g) (inr c) = inr (Memᴰ.tail c)

AreFieldsOf-skip :
    (used : List String) (v : String × Option String) (variables : List (String × Option String))
    (fields : List String)
    → IsCovered used fields v
    → AreFieldsOf used variables fields
    → AreFieldsOf used (v ∷ variables) fields
AreFieldsOf-skip used v variables fields c h = record {
  sound = All-imp fields (λ f (name, m, u). (name, Memᴰ.tail m, u)) h.sound;
  covered = (c, h.covered);
}

AreFieldsOf-keep :
    (used : List String) (name f : String) (variables : List (String × Option String))
    (fields : List String)
    → Memᴰ name used
    → AreFieldsOf used variables fields
    → AreFieldsOf used ((name, some f) ∷ variables) (f ∷ fields)
AreFieldsOf-keep used name f variables fields u h = record {
  sound = ((name, Memᴰ.head refl, u), All-imp fields (λ g (x, m, w). (x, Memᴰ.tail m, w)) h.sound);
  covered =
      (inr (Memᴰ.head refl), All-imp variables (λ v c. IsCovered-cons used fields f v c) h.covered);
}

fields_of-cases :
    (used : List String) (name f : String) (rest : List (String × Option String))
    → (Memᴰ name used × (fields_of used ((name, some f) ∷ rest) ≡ f ∷ fields_of used rest))
      ⊎ ((¬ Memᴰ name used) × (fields_of used ((name, some f) ∷ rest) ≡ fields_of used rest))
unfolding fields_of
fields_of-cases used name f rest = elim (has_text-cases name used) [
  | inl (e, u) ↦ inl (u, ground (arith, e))
  | inr (e, absent) ↦ inr (absent, ground (arith, e))
]

fields_of-step :
    (used : List String) (name f : String) (rest : List (String × Option String))
    → AreFieldsOf used rest (fields_of used rest)
    → AreFieldsOf used ((name, some f) ∷ rest) (fields_of used ((name, some f) ∷ rest))
fields_of-step used name f rest h = elim (fields_of-cases used name f rest) [
  | inl (u, e) ↦ rw e (AreFieldsOf-keep used name f rest (fields_of used rest) u h)
  | inr (absent, e) ↦
      rw e (AreFieldsOf-skip used (name, some f) rest (fields_of used rest) (inl absent) h)
]

fields_of-AreFieldsOf :
    (used : List String) (variables : List (String × Option String))
    → AreFieldsOf used variables (fields_of used variables)
unfolding fields_of
fields_of-AreFieldsOf used [] = record { sound = tt; covered = tt }
fields_of-AreFieldsOf used ((name, none) ∷ rest) =
    AreFieldsOf-skip used (name, none) rest (fields_of used rest) tt
      (fields_of-AreFieldsOf used rest)
fields_of-AreFieldsOf used ((name, some f) ∷ rest) =
    fields_of-step used name f rest (fields_of-AreFieldsOf used rest)

module _ (catalog : Catalog) where
  gates-cases :
      (p : NotificationEventPreference) (event_code : String) (changed_fields : List String)
      (o : Option String)
      → p.template ≡ o
      → (fields : List String) × AreGates catalog p event_code fields
        × (passes catalog p event_code changed_fields ≡ accepts fields changed_fields)
  unfolding passes derive_gating_fields
  gates-cases p event_code changed_fields none e = (p.fields, inl (inl e, refl), ground (arith, e))
  gates-cases p event_code changed_fields (some template) e =
      elim (Bool-cases (str_eq template "")) [
        | inl h ↦ (
          p.fields,
          inl (inr (e ∙ ap some ((eq_iff template "").0 h)), refl),
          ground (arith, e, h),
        )
        | inr h ↦ (
          derive_gating_fields catalog template event_code,
          inr (
            template,
            e,
            (λ k. cc (h, (eq_iff template "").1 k)),
            fields_of-AreFieldsOf (catalog.get_used_variables template)
                (catalog.get_template_variables event_code),
          ),
          ground (arith, e, h),
        )
      ]

  -- The filter lets through, or blocks, by the fields that decide.
  pub passes-cases :
      (p : NotificationEventPreference) (event_code : String) (changed_fields : List String)
      → (fields : List String) × AreGates catalog p event_code fields
        × (((passes catalog p event_code changed_fields ≡ true) × LetsThrough fields changed_fields)
            ⊎ ((passes catalog p event_code changed_fields ≡ false) × Blocks fields changed_fields))
  passes-cases p event_code changed_fields =
      let (fields, gates, e) = gates-cases p event_code changed_fields p.template refl in
      (
        fields,
        gates,
        elim (accepts-cases fields changed_fields) [
          | inl (h, through) ↦ inl (e ∙ h, through)
          | inr (h, blocks) ↦ inr (e ∙ h, blocks)
        ],
      )
