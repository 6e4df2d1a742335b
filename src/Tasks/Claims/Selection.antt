-- ===== src/Tasks/Claims/Selection.antt =====
-- The row that the ordered selection of `TaskRepository.claim_next` finds.
use mathlib.Core.List.{Memᴰ}
use plomio.Prelude.{
  ℕ, none, some, [], ◌∷◌, List, true, false, ◌≡◌, ◌⊎◌, inl, inr, refl, arith, any_where, All,
  &&-eq_true, ltb→lt, ap, ◌<◌, ◌≤◌, Bool-cases, Bool, ◌&&◌,
}
use plomio.Database.{Task}
use plomio.Core.Enums.{TaskStatus, queued}
use native.Mathlib.Decide.{dec_lt}
use plomio.Tasks.Queue.{is_queued, is_claimable, precedes, next_task}

precedes_step :
    (r t best : Task) → precedes r best ≡ false → precedes best t ≡ false → precedes r t ≡ false
precedes_step r t best h k = ground (arith, h, k)

precedes_asym : (t best : Task) → precedes best t ≡ true → precedes t best ≡ false
precedes_asym t best h = ground (arith, h)

precedes_irrefl : (t : Task) → precedes t t ≡ false
precedes_irrefl t = ground arith

-- Some claimable task of the list comes before `t`.
abbrev pub is_preceded : ℕ → List Task → Task → Bool
is_preceded now ts t = any_where (λ r. is_claimable now r && precedes r t) ts

-- A claimable task of the table before which no claimable task of the table comes.
pub record IsFound (now : ℕ) (ts : List Task) (t : Task) : Type 0 where
  pub member : Memᴰ t ts
  pub claimable : is_claimable now t ≡ true
  pub best : is_preceded now ts t ≡ false

preceded_step :
    (now : ℕ) (t best : Task) (ts : List Task)
    → precedes best t ≡ false
    → is_preceded now ts best ≡ false
    → is_preceded now ts t ≡ false
preceded_step now t best [] h k = refl
preceded_step now t best (r ∷ ts) h k =
    ground (arith, k, precedes_step r t best, h, preceded_step now t best ts h)

preceded_none :
    (now : ℕ) (t : Task) (ts : List Task)
    → any_where (is_claimable now) ts ≡ false
    → is_preceded now ts t ≡ false
preceded_none now t [] h = refl
preceded_none now t (r ∷ ts) h = ground (arith, h, preceded_none now t ts)

pub next_task-cases :
    (now : ℕ) (ts : List Task)
    → ((any_where (is_claimable now) ts ≡ false) × (next_task now ts ≡ none))
      ⊎ ((t : Task) × (next_task now ts ≡ some t) × IsFound now ts t)
unfolding next_task
next_task-cases now [] = inl (refl, refl)
next_task-cases now (t ∷ ts) = elim (Bool-cases (is_claimable now t)) [
  | inl c ↦ elim (next_task-cases now ts) [
    | inl (n, e) ↦ inr (
      t,
      ground (arith, c, e),
      record {
        member = Memᴰ.head refl;
        claimable = c;
        best = ground (arith, precedes_irrefl t, preceded_none now t ts n);
      },
    )
    | inr (b, e, best) ↦ elim (Bool-cases (precedes b t)) [
      | inl before ↦ inr (
        b,
        ground (arith, c, e, before),
        record {
          member = Memᴰ.tail best.member;
          claimable = best.claimable;
          best = ground (arith, precedes_asym t b before, best.best);
        },
      )
      | inr after ↦ inr (
        t,
        ground (arith, c, e, after),
        record {
          member = Memᴰ.head refl;
          claimable = c;
          best = ground (arith, precedes_irrefl t, preceded_step now t b ts after best.best);
        },
      )
    ]
  ]
  | inr c ↦ elim (next_task-cases now ts) [
    | inl (n, e) ↦ inl (ground (arith, c, n), ground (arith, c, e))
    | inr (b, e, best) ↦ inr (
      b,
      ground (arith, c, e),
      record {
        member = Memᴰ.tail best.member;
        claimable = best.claimable;
        best = ground (arith, c, best.best);
      },
    )
  ]
]

-- The task is queued and its deadline is ahead.
abbrev pub IsWaiting : ℕ → Task → Type 0
IsWaiting now t = (t.status ≡ queued) × (now < t.queue_expires_at)

abbrev pub IsNotWaiting : ℕ → Task → Type 0
IsNotWaiting now t = (¬ (t.status ≡ queued)) ⊎ (t.queue_expires_at ≤ now)

-- `t` comes no later than `r`: the smaller number of priority, then the earlier creation.
abbrev pub ComesFirst : Task → Task → Type 0
ComesFirst t r =
    (t.priority < r.priority) ⊎ ((t.priority ≡ r.priority) × (t.created_at ≤ r.created_at))

-- A waiting task of the table that comes no later than each other one.
pub record IsBest (now : ℕ) (ts : List Task) (t : Task) : Type 0 where
  pub member : Memᴰ t ts
  pub waiting : IsWaiting now t
  pub best : All (λ r. IsNotWaiting now r ⊎ ComesFirst t r) ts

is_queued-eq : (s : TaskStatus) → is_queued s ≡ true → s ≡ queued
is_queued-eq TaskStatus.queued h = refl
is_queued-eq TaskStatus.running h = absurd (cc h)
is_queued-eq TaskStatus.paused h = absurd (cc h)
is_queued-eq TaskStatus.succeeded h = absurd (cc h)
is_queued-eq TaskStatus.failed h = absurd (cc h)
is_queued-eq TaskStatus.expired h = absurd (cc h)
is_queued-eq TaskStatus.cancelled h = absurd (cc h)

is_queued-neq : (s : TaskStatus) → is_queued s ≡ false → ¬ (s ≡ queued)
is_queued-neq s h e = cc (h, ap is_queued e)

pub claimable-IsWaiting : (now : ℕ) (t : Task) → is_claimable now t ≡ true → IsWaiting now t
claimable-IsWaiting now t h =
    let (is, left) = &&-eq_true _ _ h in (is_queued-eq t.status is, ltb→lt _ _ left)

pub not_claimable-IsNotWaiting :
    (now : ℕ) (t : Task) → is_claimable now t ≡ false → IsNotWaiting now t
not_claimable-IsNotWaiting now t h = elim (Bool-cases (is_queued t.status)) [
  | inl is ↦ inr (ground (arith, h, is))
  | inr is ↦ inl (is_queued-neq t.status is)
]

not_precedes-ComesFirst : (t r : Task) → precedes r t ≡ false → ComesFirst t r
not_precedes-ComesFirst t r h = elim (dec_lt t.priority r.priority) [
  | yes k ↦ inl k
  | no k ↦ inr (ground (arith, h, k), ground (arith, h, k))
]

not_preceded-All :
    (now : ℕ) (t : Task) (ts : List Task)
    → is_preceded now ts t ≡ false
    → All (λ r. IsNotWaiting now r ⊎ ComesFirst t r) ts
not_preceded-All now t [] h = tt
not_preceded-All now t (r ∷ ts) h = (
  elim (Bool-cases (is_claimable now r)) [
    | inl c ↦ inr (not_precedes-ComesFirst t r (ground (arith, h, c)))
    | inr c ↦ inl (not_claimable-IsNotWaiting now r c)
  ],
  not_preceded-All now t ts (ground (arith, h)),
)

pub any_where-All :
    (now : ℕ) (ts : List Task) → any_where (is_claimable now) ts ≡ false → All (IsNotWaiting now) ts
any_where-All now [] h = tt
any_where-All now (r ∷ ts) h =
    (not_claimable-IsNotWaiting now r (ground (arith, h)), any_where-All now ts (ground (arith, h)))

pub found-IsBest : (now : ℕ) (ts : List Task) (t : Task) → IsFound now ts t → IsBest now ts t
found-IsBest now ts t found = record {
  member = found.member;
  waiting = claimable-IsWaiting now t found.claimable;
  best = not_preceded-All now t ts found.best;
}
