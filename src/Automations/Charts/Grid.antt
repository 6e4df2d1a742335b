-- ===== src/Automations/Charts/Grid.antt =====
-- The size of the charts.
use native.Mathlib.Decide.{dec_lt}
use plomio.Automations.Charts.Totals.{div_bounds, mul_mono, step_positive}
use plomio.Automations.Charts.{
  Bucket, align_to_step, fill_from, fill_empty_buckets, price_chart_step_seconds,
  price_chart_max_points, longest_step, second, ℕ, List, suc, leb,
}
use plomio.Prelude.{
  inr, inl, zero, ℕ, ◌≤◌, ◌<◌, List, ◌+◌, ◌*◌, arith, length, ◌/◌, ◌≡◌, suc, Bool-cases, leb, inl,
  inr, ◌-◌,
}

-- A grid covers its length in steps.
fill_from-length :
    (fuel : ℕ) (points : List Bucket) (until step current : ℕ)
    → current ≤ until + step
    → length (fill_from fuel points until step current) * step + current ≤ until + step
unfolding fill_from
fill_from-length zero points until step current h = grind arith
fill_from-length (suc fuel) points until step current h = elim (Bool-cases (leb current until)) [
  | inl e ↦
      let rest = fill_from-length fuel points until step (current + step) (ground (arith, e)) in
      rw e (grind (arith, rest))
  | inr e ↦ rw e (grind arith)
]

-- A grid reaches the end of the period.
fill_from-covers :
    (fuel : ℕ) (points : List Bucket) (until step current : ℕ)
    → until < current + fuel * step
    → until < current + length (fill_from fuel points until step current) * step
unfolding fill_from
fill_from-covers zero points until step current h = h
fill_from-covers (suc fuel) points until step current h = elim (Bool-cases (leb current until)) [
  | inl e ↦
      let far : until < (current + step) + fuel * step = grind arith in
      let rest = fill_from-covers fuel points until step (current + step) far in
      rw e (grind (arith, rest))
  | inr e ↦ rw e (ground (arith, e))
]

price_chart_step-fits :
    (span : ℕ)
    → span ≤ longest_step * second * price_chart_max_points
    → span ≤ price_chart_step_seconds span * second * price_chart_max_points
unfolding price_chart_step_seconds
price_chart_step-fits span h = ground arith

times_lt : (n m step : ℕ) → n * step < m * step → n < m
times_lt n m step h = elim (dec_lt n m) [
  | yes less ↦ less
  | no more ↦ absurd (omega (arith, h, mul_mono step m n (omega (arith, more))))
]

length_bound :
    (step n since until : ℕ)
    → 0 < step
    → n * step + since / step * step ≤ until + step
    → until ≤ since + step * price_chart_max_points
    → n ≤ 31
length_bound step n since until pos h k =
    let less : n * step < 32 * step = omega (arith, h, k, div_bounds step since pos) in
    omega (arith, times_lt n 32 step less)

-- For a period of at most thirty times the longest step, the chart with the step that is chosen for
-- the period has at most 31 buckets, and they reach past its end.
pub fill_empty_buckets-length :
    (points : List Bucket) (since until : ℕ)
    → since ≤ until
    → until - since ≤ longest_step * second * price_chart_max_points
    → let step = price_chart_step_seconds (until - since) * second in
      let filled = fill_empty_buckets points since until step in
      (length filled ≤ 31) × (until < align_to_step since step + length filled * step)
unfolding fill_empty_buckets
fill_empty_buckets-length points since until ordered fits =
    let step = price_chart_step_seconds (until - since) * second in
    let pos : 0 < step = omega (arith, step_positive (until - since)) in
    let fuel = until / step + 2 in
    let start = align_to_step since step in
    let begun : start ≤ until + step = omega (arith, div_bounds step since pos, ordered) in
    let enough : until < start + fuel * step = grind (arith, div_bounds step until pos) in
    (
      length_bound step (length (fill_from fuel points until step start)) since until pos
          (fill_from-length fuel points until step start begun)
          (omega (arith, price_chart_step-fits (until - since) fits, ordered)),
      fill_from-covers fuel points until step start enough,
    )

-- A period of thirty steps that starts on the grid has 31 buckets, one more than
-- PRICE_CHART_MAX_POINTS.
pub fill_empty_buckets-31 :
    (points : List Bucket) (k step : ℕ)
    → 0 < step
    → length (fill_empty_buckets points (k * step) (k * step + step * price_chart_max_points) step)
      ≡ 31
unfolding fill_empty_buckets
fill_empty_buckets-31 points k step pos =
    let since = k * step in
    let until = k * step + step * price_chart_max_points in
    let fuel = until / step + 2 in
    let start = align_to_step since step in
    let aligned : start ≡ since = grind (arith, div_bounds step since pos) in
    let enough : until < start + fuel * step = grind (arith, div_bounds step until pos) in
    let begun : start ≤ until + step = omega (arith, aligned) in
    let n = length (fill_from fuel points until step start) in
    let low : 30 * step < n * step =
      omega (arith, aligned, fill_from-covers fuel points until step start enough) in
    let high =
      length_bound step n since until pos (fill_from-length fuel points until step start begun)
        (omega arith) in
    omega (arith, times_lt 30 n step low, high)
