-- ===== src/Worker/Pages/Limit.antt =====
-- The limit of results of a task, over all pages of an item.
use native.Mathlib.Decide.{dec_lt}
use plomio.Prelude.{
  ℕ, zero, suc, ◌+◌, ◌-◌, ◌≤◌, ◌≡◌, true, Option, some, List, [], ◌∷◌, refl, arith, length, take,
  inl, inr, ◌⊎◌, String, length-append, ◌<◌, is_some, ap,
}
use plomio.Database.{Database, Task}
use plomio.Billing.Wallets.{BillingConfig}
use plomio.Tasks.Items.{record_item_progress}
use plomio.Worker.Pages.{
  Page, Fetched, page, fetch_failed, is_limited, PageState, LoopEnd, remaining_limit, cut,
  store_page, page_loop, TaskItemStatus,
}
use plomio.Core.Enums.{TaskItemStatus}

length-take-le {ℓ} : {A : Type ℓ} (n : ℕ) (xs : List A) → length (take n xs) ≤ n
length-take-le zero xs = omega arith
length-take-le (suc n) [] = omega arith
length-take-le (suc n) (x ∷ xs) = omega (arith, length-take-le n xs)

cut-le : (n : ℕ) (xs : List ℕ) → length (cut (some n) xs) ≤ n
cut-le n xs = length-take-le n xs

cut-grows : (n : ℕ) (xs : List ℕ) → 0 < length xs → 0 < n → 0 < length (cut (some n) xs)
cut-grows zero xs h k = omega (arith, k)
cut-grows (suc n) [] h k = omega (arith, h)
cut-grows (suc n) (x ∷ xs) h k = omega arith

remaining-eq :
    (limit : ℕ) (task : Task) (count : ℕ)
    → is_limited task.parse_type ≡ true
    → task.result_limit ≡ some limit
    → remaining_limit task count ≡ some (limit - count)
remaining-eq limit task count l r = ground (arith, l, r)

Fetched-cases :
    (f : Fetched)
    → ((p : Page) × (f ≡ page p))
      ⊎ ((s : TaskItemStatus) × (reason : String) × (f ≡ fetch_failed s reason))
Fetched-cases (page p) = inl (p, refl)
Fetched-cases (fetch_failed s reason) = inr (s, reason, refl)

module _ (config : BillingConfig) (now check_interval : ℕ) (task : Task) (item_id : ℕ)
    (fetch : ℕ → Option ℕ → Option ℕ → Fetched) where
  -- The database after a page.
  abbrev reported : PageState → Page → Database
  reported st p =
      (record_item_progress config now item_id p.next_cursor
        (store_page config now check_interval task item_id fetch st p).result_count st.db).1

  abbrev next_state : PageState → Page → ℕ → PageState
  next_state st p since = record (store_page config now check_interval task item_id fetch st p) {
    db = reported st p;
    pages_since_status_check = since;
  }

  -- For a task with a limit of results that its type is subject to, an item whose count is within
  -- the limit is within it when the loop over its pages ends, however large the pages are.
  pub page_loop-limit :
      (limit fuel : ℕ) (st : PageState) (e : LoopEnd) (st' : PageState)
      → is_limited task.parse_type ≡ true
      → task.result_limit ≡ some limit
      → st.result_count ≤ limit
      → page_loop config now check_interval task item_id fetch fuel st ≡ some (e, st')
      → st'.result_count ≤ limit
  unfolding page_loop
  page_loop-limit limit zero st e st' l r b h = ground (arith, h)
  page_loop-limit limit (suc fuel) st e st' l r b h =
      elim (Fetched-cases (fetch st.pages st.cursor (remaining_limit task st.result_count))) [
        | inr (s, reason, q) ↦ ground (arith, h, q, b)
        | inl (p, q) ↦
            let fits = cut-le (limit - st.result_count) p.items in
            ground (
              arith,
              h,
              q,
              l,
              r,
              b,
              fits,
              page_loop-limit limit fuel (next_state st p 0) e st' l r,
              page_loop-limit limit fuel (next_state st p (st.pages_since_status_check + 1)) e st' l
                  r,
            )
      ]

  -- When the loop over the pages of an item ends, its count has grown by exactly the number of
  -- results that it has stored.
  pub page_loop-results :
      (fuel : ℕ) (st : PageState) (e : LoopEnd) (st' : PageState)
      → page_loop config now check_interval task item_id fetch fuel st ≡ some (e, st')
      → st.result_count + length st'.results ≡ st'.result_count + length st.results
  unfolding page_loop
  page_loop-results zero st e st' h = ground (arith, h)
  page_loop-results (suc fuel) st e st' h =
      elim (Fetched-cases (fetch st.pages st.cursor (remaining_limit task st.result_count))) [
        | inr (s, reason, q) ↦ ground (arith, h, q)
        | inl (p, q) ↦ ground (
          arith,
          h,
          q,
          length-append st.results (cut (remaining_limit task st.result_count) p.items),
          page_loop-results fuel (next_state st p 0) e st',
          page_loop-results fuel (next_state st p (st.pages_since_status_check + 1)) e st',
        )
      ]

  -- For a task with a limit of results that its type is subject to, if every page that is fetched
  -- has a result, then the loop over the pages of an item whose count is within the limit ends, in
  -- at most one round more than there are results left.
  pub page_loop-ends :
      (limit fuel : ℕ) (st : PageState)
      → is_limited task.parse_type ≡ true
      → task.result_limit ≡ some limit
      → st.result_count ≤ limit
      → limit - st.result_count < fuel
      → ((n : ℕ) (c : Option ℕ) (r : Option ℕ) (p : Page)
          → fetch n c r ≡ page p
          → 0 < length p.items)
      → is_some (page_loop config now check_interval task item_id fetch fuel st) ≡ true
  unfolding page_loop
  page_loop-ends limit zero st l r b k full = ground (arith, k)
  page_loop-ends limit (suc fuel) st l r b k full =
      elim (Fetched-cases (fetch st.pages st.cursor (remaining_limit task st.result_count))) [
        | inr (s, reason, q) ↦ ground (arith, q)
        | inl (p, q) ↦
            let left = remaining-eq limit task st.result_count l r in
            let taken = length (cut (some (limit - st.result_count)) p.items) in
            let fits = cut-le (limit - st.result_count) p.items in
            let grows = cut-grows (limit - st.result_count) p.items (full _ _ _ p q) in
            let count : (next_state st p 0).result_count ≡ st.result_count + taken =
              ap (λ c. st.result_count + length (cut c p.items)) left in
            elim (dec_lt (st.result_count + taken) limit) [
              | yes more ↦
                  let below : (next_state st p 0).result_count ≤ limit =
                    rw count (omega (arith, more)) in
                  let some_new : 0 < taken = grows (omega (arith, more)) in
                  let fewer : limit - (next_state st p 0).result_count < fuel =
                    rw count (omega (arith, more, k, some_new)) in
                  ground (
                    arith,
                    q,
                    page_loop-ends limit fuel (next_state st p 0) l r below fewer full,
                    page_loop-ends limit fuel (next_state st p (st.pages_since_status_check + 1)) l
                        r below fewer full,
                  )
              | no last ↦ ground (arith, q, left, b, fits, last)
            ]
      ]
