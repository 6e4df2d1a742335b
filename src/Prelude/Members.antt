-- ===== src/Prelude/Members.antt =====
-- What the selections find, said of the rows that are members of the table.
use mathlib.Core.Path.{◌≡◌, refl, ap, ◌∙◌}
use mathlib.Core.Logic.{◌⊎◌, inl, inr}
use mathlib.Core.Bool.{Bool, true, false}
use mathlib.Core.Option.{none, some}
use mathlib.Core.List.{List, [], ◌∷◌, Memᴰ}
use native.Mathlib.Omega.{arith}
use plomio.Prelude.Tests.{if◌then◌else◌, Bool-cases}
use plomio.Prelude.Lists.{All, find_where, any_where}

-- A selection of one row finds a row that satisfies the condition, where there is one.
pub find_where-cases {ℓ} :
    {A : Type ℓ} (p : A → Bool) (xs : List A)
    → ((find_where p xs ≡ none) × All (λ x. p x ≡ false) xs)
      ⊎ ((x : A) × (find_where p xs ≡ some x) × Memᴰ x xs × (p x ≡ true))
find_where-cases p [] = inl (refl, tt)
find_where-cases p (x ∷ xs) = elim (Bool-cases (p x)) [
  | inl k ↦ inr (x, ap (λ b. if b then some x else find_where p xs) k, Memᴰ.head refl, k)
  | inr k ↦ elim (find_where-cases p xs) [
    | inl (e, over) ↦ inl (ap (λ b. if b then some x else find_where p xs) k ∙ e, (k, over))
    | inr (y, e, member, h) ↦
        inr (y, ap (λ b. if b then some x else find_where p xs) k ∙ e, Memᴰ.tail member, h)
  ]
]

-- A test holds of some row of a list, or fails of each.
pub any_where-cases {ℓ} :
    {A : Type ℓ} (p : A → Bool) (xs : List A)
    → ((any_where p xs ≡ true) × ((x : A) × Memᴰ x xs × (p x ≡ true)))
      ⊎ ((any_where p xs ≡ false) × All (λ x. p x ≡ false) xs)
any_where-cases p [] = inr (refl, tt)
any_where-cases p (x ∷ xs) = elim (Bool-cases (p x)) [
  | inl k ↦ inl (ground (arith, k), (x, Memᴰ.head refl, k))
  | inr k ↦ elim (any_where-cases p xs) [
    | inl (e, (y, member, h)) ↦ inl (ground (arith, k, e), (y, Memᴰ.tail member, h))
    | inr (e, over) ↦ inr (ground (arith, k, e), (k, over))
  ]
]
