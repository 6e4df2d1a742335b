-- ===== src/Worker/HotSession/Current.antt =====
-- The current session of `HotSessionSlot`, over runs of its calls.
use plomio.Prelude.{
  ℕ, ◌+◌, ◌-◌, ◌≡◌, Bool, true, false, none, some, List, [], ◌∷◌, not, ◌&&◌, ◌==◌, if◌then◌else◌,
  filter_where, update_first, refl, arith, Option-cases, inl, inr, Bool-cases, ap, ==_iff,
}
use plomio.Worker.Execution.{Given}
use plomio.Worker.HotSession.{
  Slot, SlotEntry, find_entry, set_users, retire, finalize_if_idle, rotate, acquire, release,
  discard,
}
use plomio.Worker.Execution.Attempts.{Given-cases}

-- The current session, if any, has an entry that is not retired.
unfoldable pub is_current : Slot → Bool
is_current slot = elim slot.current [
  | none ↦ true
  | some id ↦ elim (find_entry id slot.entries) [ none ↦ false | some e ↦ not e.retired ]
]

pub find-set :
    (id j : ℕ) (f : SlotEntry → SlotEntry) (es : List SlotEntry)
    → ((e : SlotEntry) → (f e).session_id ≡ e.session_id)
    → find_entry j (update_first (λ e. e.session_id == id) f es) ≡ (
        if j == id
        then elim (find_entry j es) [ none ↦ none | some e ↦ some (f e) ]
        else find_entry j es)
find-set id j f [] k = ground arith
find-set id j f (e ∷ es) k = ground (arith, k e, find-set id j f es k)

pub find-without :
    (id j : ℕ) (es : List SlotEntry)
    → find_entry j (filter_where (λ e. not (e.session_id == id)) es)
      ≡ (if j == id then none else find_entry j es)
find-without id j [] = ground arith
find-without id j (e ∷ es) = ground (arith, find-without id j es)

pub rotate-is_current :
    (max_age now : ℕ) (slot : Slot)
    → is_current slot ≡ true
    → is_current (rotate max_age now slot) ≡ true
unfolding is_current rotate retire
rotate-is_current max_age now slot h = ground (arith, h)

acquire-is_current :
    (max_age now : ℕ) (taken : Given ℕ) (slot : Slot)
    → is_current slot ≡ true
    → is_current (acquire max_age now taken slot).1 ≡ true
unfolding is_current acquire
acquire-is_current max_age now taken slot h =
    let rotated = rotate max_age now slot in
    let kept = rotate-is_current max_age now slot h in
    elim (Option-cases rotated.current) [
      | inl c ↦ elim (Given-cases taken) [
        | inl (id, t) ↦ ground (arith, c, t)
        | inr (e, t) ↦ ground (arith, c, t)
      ]
      | inr (id, c) ↦ ground (
        arith,
        c,
        kept,
        find-set id id (λ e. record e { users = e.users + 1 }) rotated.entries (λ e. refl),
      )
    ]

finalize-is_current :
    (id : ℕ) (slot : Slot) → is_current slot ≡ true → is_current (finalize_if_idle id slot) ≡ true
unfolding is_current finalize_if_idle
finalize-is_current id slot h = elim (Option-cases slot.current) [
  | inl c ↦ ground (arith, c)
  | inr (j, c) ↦ elim (Bool-cases (j == id)) [
    | inl same ↦
        ground (arith, c, h, same, ap (λ k. find_entry k slot.entries) ((==_iff j id).0 same))
    | inr other ↦ ground (arith, c, h, other, find-without id j slot.entries)
  ]
]

users-is_current :
    (f : ℕ → ℕ) (id : ℕ) (slot : Slot)
    → is_current slot ≡ true
    → is_current (set_users f id slot) ≡ true
unfolding is_current
users-is_current f id slot h = elim (Option-cases slot.current) [
  | inl c ↦ ground (arith, c)
  | inr (j, c) ↦
      ground
        (arith, c, h, find-set id j (λ e. record e { users = f e.users }) slot.entries (λ e. refl))
]

retire-is_current :
    (id : ℕ) (b : Bool) (slot : Slot)
    → is_current slot ≡ true
    → is_current (retire id b slot) ≡ true
unfolding is_current retire
retire-is_current id b slot h = elim (Option-cases slot.current) [
  | inl c ↦ ground (arith, c)
  | inr (j, c) ↦ ground (
    arith,
    c,
    h,
    find-set id j (λ e. record e { retired = true; trusted = e.trusted && b }) slot.entries
        (λ e. refl),
  )
]

-- The calls of the requests.
pub data SlotCall : Type 0 where
  acquires : (now : ℕ) (taken : Given ℕ) → SlotCall
  releases discards : (id : ℕ) → SlotCall

-- A `KeyError` changes nothing.
pub run_slot : ℕ → List SlotCall → Slot → Slot
run_slot max_age [] slot = slot
run_slot max_age (acquires now taken ∷ cs) slot =
    run_slot max_age cs (acquire max_age now taken slot).1
run_slot max_age (releases id ∷ cs) slot =
    run_slot max_age cs (elim (release id slot) [ none ↦ slot | some slot' ↦ slot' ])
run_slot max_age (discards id ∷ cs) slot =
    run_slot max_age cs (elim (discard id slot) [ none ↦ slot | some slot' ↦ slot' ])

release-is_current :
    (id : ℕ) (slot : Slot)
    → is_current slot ≡ true
    → is_current (elim (release id slot) [ none ↦ slot | some slot' ↦ slot' ]) ≡ true
unfolding release
release-is_current id slot h = ground (
  arith,
  h,
  finalize-is_current id (set_users (λ n. n - 1) id slot) (users-is_current (λ n. n - 1) id slot h),
)

discard-is_current :
    (id : ℕ) (slot : Slot)
    → is_current slot ≡ true
    → is_current (elim (discard id slot) [ none ↦ slot | some slot' ↦ slot' ]) ≡ true
unfolding discard
discard-is_current id slot h = ground (
  arith,
  h,
  finalize-is_current id (retire id false (set_users (λ n. n - 1) id slot)) (
      retire-is_current id false (set_users (λ n. n - 1) id slot)
        (users-is_current (λ n. n - 1) id slot h)),
)

-- If the current session of the slot, if any, has an entry that is not retired, then the same holds
-- after any sequence of acquisitions, releases and discards.
pub run_slot-is_current :
    (max_age : ℕ) (cs : List SlotCall) (slot : Slot)
    → is_current slot ≡ true
    → is_current (run_slot max_age cs slot) ≡ true
unfolding run_slot
run_slot-is_current max_age [] slot h = h
run_slot-is_current max_age (acquires now taken ∷ cs) slot h =
    run_slot-is_current max_age cs _ (acquire-is_current max_age now taken slot h)
run_slot-is_current max_age (releases id ∷ cs) slot h =
    run_slot-is_current max_age cs _ (release-is_current id slot h)
run_slot-is_current max_age (discards id ∷ cs) slot h =
    run_slot-is_current max_age cs _ (discard-is_current id slot h)
