-- ===== src/Automations/Charts/Totals.antt =====
-- No change of the price is lost or counted twice between the query and the chart.
use native.Mathlib.Decide.{dec_lt}
use plomio.Core.Result.{ok}
use plomio.Automations.Charts.{
  Bucket, align_to_step, count_at, add_to, group_by_bucket, ℕ, List, Bool, fill_from, is_between,
  suc, get_price_change_frequency, true, fill_empty_buckets, price_chart_step_seconds, filter_where,
  changes_between, Database, change_times, ticks_of, second,
}
use plomio.Prelude.{
  zero, List, ℕ, ◌<◌, ◌≡◌, Bool, ◌∷◌, [], count_where, ◌+◌, ◌==◌, if◌then◌else◌, ◌*◌, arith, ◌≤◌,
  ◌∙◌, ap, refl, ◌/◌, sym, suc, true, filter_where, Bool-cases, inl, inr, some, ◌-◌,
}
use plomio.Database.AutomationTables.{Automation}
use plomio.Database.{Database}
use plomio.Automations.{find_automation, some}

-- The columns of a chart together.
abbrev pub total : List Bucket → ℕ
total [] = 0
total ((start, n) ∷ points) = n + total points

module _ (step : ℕ) where
  abbrev starts_at : ℕ → ℕ → Bool
  starts_at moment t = align_to_step t step == moment

  count_at-add_to :
      (moment start : ℕ) (points : List Bucket)
      → count_at moment (add_to start points)
        ≡ (if start == moment then 1 else 0) + count_at moment points
  count_at-add_to moment start [] = ground arith
  count_at-add_to moment start ((s, n) ∷ points) =
      ground (arith, count_at-add_to moment start points)

  count_at-group_by_bucket :
      (moment : ℕ) (ts : List ℕ)
      → count_at moment (group_by_bucket step ts) ≡ count_where (starts_at moment) ts
  unfolding group_by_bucket
  count_at-group_by_bucket moment [] = refl
  count_at-group_by_bucket moment (t ∷ ts) =
      count_at-add_to moment (align_to_step t step) (group_by_bucket step ts)
      ∙ ap (λ n. (if starts_at moment t then 1 else 0) + n) (count_at-group_by_bucket moment ts)

  -- Multiples of the step that differ are a step apart.
  apart : (q k : ℕ) → q < k → q * step + step ≤ k * step
  apart q k h = grind arith

  abbrev in_grid : ℕ → ℕ → ℕ → Bool
  in_grid current until t = is_between current until (align_to_step t step)

  abbrev once : Bool → ℕ
  once b = if b then 1 else 0

  -- An instant is in the first bucket of a grid or in the rest of it.
  first_or_rest :
      (t k current until : ℕ)
      → 0 < step
      → current ≡ k * step
      → current ≤ until
      → once (in_grid current until t)
        ≡ once (starts_at current t) + once (in_grid (current + step) until t)
  first_or_rest t k current until pos e h =
      ground (arith, pos, e, h, apart (t / step) k, apart k (t / step))

  grid_split :
      (k current until : ℕ) (ts : List ℕ)
      → 0 < step
      → current ≡ k * step
      → current ≤ until
      → count_where (in_grid current until) ts
        ≡ count_where (starts_at current) ts + count_where (in_grid (current + step) until) ts
  grid_split k current until [] pos e h = omega arith
  grid_split k current until (t ∷ ts) pos e h =
      omega (arith, first_or_rest t k current until pos e h, grid_split k current until ts pos e h)

  grid_end :
      (current until : ℕ) (ts : List ℕ)
      → until < current
      → count_where (in_grid current until) ts ≡ 0
  grid_end current until [] h = refl
  grid_end current until (t ∷ ts) h = ground (arith, h, grid_end current until ts)

  fill_from-total :
      (fuel k current until : ℕ) (ts : List ℕ)
      → 0 < step
      → current ≡ k * step
      → until < current + fuel * step
      → total (fill_from fuel (group_by_bucket step ts) until step current)
        ≡ count_where (in_grid current until) ts
  unfolding fill_from
  fill_from-total zero k current until ts pos e h =
      sym (grid_end current until ts (omega (arith, h)))
  fill_from-total (suc fuel) k current until ts pos e h = elim (dec_lt until current) [
    | yes past ↦ ground (arith, past, grid_end current until ts past)
    | no within ↦
        let next : current + step ≡ (k + 1) * step = grind arith in
        let far : until < (current + step) + fuel * step = grind arith in
        ground (
          arith,
          within,
          count_at-group_by_bucket current ts,
          grid_split k current until ts pos e (omega (arith, within)),
          fill_from-total fuel (k + 1) (current + step) until ts pos next far,
        )
  ]

  pub div_bounds : (t : ℕ) → 0 < step → (t / step * step ≤ t) × (t < t / step * step + step)
  div_bounds t pos = grind arith

  div_mono : (s t : ℕ) → 0 < step → s ≤ t → s / step ≤ t / step
  div_mono s t pos h = grind arith

  pub mul_mono : (a b : ℕ) → a ≤ b → a * step ≤ b * step
  mul_mono a b h = grind arith

  -- An instant of the period is in a bucket of the grid.
  between-in_grid :
      (since until t : ℕ)
      → 0 < step
      → is_between since until t ≡ true
      → in_grid (align_to_step since step) until t ≡ true
  between-in_grid since until t pos h =
      let later : since ≤ t = ground (arith, h) in
      let before : t ≤ until = ground (arith, h) in
      let started = mul_mono (since / step) (t / step) (div_mono since t pos later) in
      ground (arith, started, before, div_bounds t pos)

  -- The chart holds every instant of the period once.
  pub fill_empty_buckets-total :
      (since until : ℕ) (ts : List ℕ)
      → 0 < step
      → total (
          fill_empty_buckets
            (group_by_bucket step (filter_where (is_between since until) ts))
            since
            until
            step)
        ≡ count_where (is_between since until) ts
  unfolding fill_empty_buckets
  fill_empty_buckets-total since until ts pos =
      let enough : until < align_to_step since step + (until / step + 2) * step =
        grind (arith, div_bounds until pos) in
      fill_from-total (until / step + 2) (since / step) (align_to_step since step) until
        (filter_where (is_between since until) ts) pos refl enough
      ∙ all_in ts
    where
      all_in :
          (us : List ℕ)
          → count_where
              (in_grid (align_to_step since step) until)
              (filter_where (is_between since until) us)
            ≡ count_where (is_between since until) us
      all_in [] = refl
      all_in (u ∷ us) = elim (Bool-cases (is_between since until u)) [
        | inl e ↦ rw e (ground (arith, between-in_grid since until u pos e, all_in us))
        | inr e ↦ rw e (omega (arith, all_in us))
      ]

pub step_positive : (span : ℕ) → 0 < price_chart_step_seconds span
unfolding price_chart_step_seconds
step_positive span = ground arith

-- For an automation of the user, get_price_change_frequency returns the step for the period and
-- buckets whose counts add up to the number of all changes of price in the period: none is lost at
-- an edge of the grid, and none is counted twice.
pub get_price_change_frequency-total :
    (automation_id user_id since until : ℕ) (a : Automation) (db : Database)
    → find_automation automation_id db.automations ≡ some a
    → a.user_id ≡ user_id
    → (points : List Bucket) × (get_price_change_frequency automation_id user_id since until db
        ≡ (ok (price_chart_step_seconds (until - since), points), db))
      × (total points
          ≡ count_where
              (is_between since until)
              (change_times (ticks_of automation_id db.check_logs)))
unfolding get_price_change_frequency changes_between
get_price_change_frequency-total automation_id user_id since until a db found own =
    let step = price_chart_step_seconds (until - since) * second in
    let times = change_times (ticks_of automation_id db.check_logs) in
    let kept = filter_where (is_between since until) times in
    (
      fill_empty_buckets (group_by_bucket step kept) since until step,
      ground (arith, found, own),
      fill_empty_buckets-total step since until times
          (omega (arith, step_positive (until - since))),
    )
