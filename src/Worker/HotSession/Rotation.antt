-- ===== src/Worker/HotSession/Rotation.antt =====
-- Which session a request gets from `HotSessionSlot`, and when a session is closed.
use plomio.Prelude.{
  ℕ, ◌+◌, ◌-◌, ◌≡◌, Bool, true, false, none, some, ◌∷◌, leb, ltb, not, ◌&&◌, ◌==◌, if◌then◌else◌,
  is_id, filter_where, update_first, refl, arith,
}
use plomio.Worker.Execution.{Given, returned}
use plomio.Worker.HotSession.{
  Slot, SlotEntry, find_entry, retire, finalize_if_idle, new_entry, rotate, acquire, release,
  is_too_old,
}
use plomio.Worker.HotSession.Current.{is_current, find-set, find-without, rotate-is_current}

-- The session is current, in use, and not retired.
unfoldable pub serves : ℕ → Slot → Bool
serves id slot =
    is_id slot.current id
    && elim (find_entry id slot.entries) [ none ↦ false | some e ↦ not e.retired && ltb 0 e.users ]

-- If the current session has an entry that is not retired, then a session that acquire returns is
-- current, in use, and not retired.
pub acquire-serves :
    (max_age now : ℕ) (taken : Given ℕ) (slot : Slot) (id : ℕ)
    → is_current slot ≡ true
    → (acquire max_age now taken slot).0 ≡ returned id
    → serves id (acquire max_age now taken slot).1 ≡ true
unfolding is_current serves acquire
acquire-serves max_age now taken slot id h r =
    let rotated = rotate max_age now slot in
    ground (
      arith,
      h,
      r,
      rotate-is_current max_age now slot h,
      find-set id id (λ e. record e { users = e.users + 1 }) rotated.entries (λ e. refl),
    )

-- When a user leaves a session that has an entry, the client of the session is closed exactly if
-- the session is retired and this was the last user, and then the session goes back to the pool
-- exactly if it is trusted.
pub release-last :
    (id : ℕ) (slot slot' : Slot) (e : SlotEntry)
    → find_entry id slot.entries ≡ some e
    → release id slot ≡ some slot'
    → (slot'.closed ≡ (if e.retired && leb e.users 1 then id ∷ slot.closed else slot.closed))
      × (slot'.pool
          ≡ (if e.retired && (leb e.users 1 && e.trusted) then id ∷ slot.pool else slot.pool))
unfolding release finalize_if_idle
release-last id slot slot' e h r =
    ground
      (arith, h, r, find-set id id (λ e. record e { users = e.users - 1 }) slot.entries (λ e. refl))

-- Where the current session is too old and nobody uses it, acquire of another session leaves it
-- behind: its entry stays, retired and without users, and it is neither closed nor released.
pub acquire-left_behind :
    (max_age now : ℕ) (taken id : ℕ) (slot : Slot) (e : SlotEntry)
    → slot.current ≡ some id
    → find_entry id slot.entries ≡ some e
    → e.users ≡ 0
    → is_too_old max_age now e ≡ true
    → (id == taken) ≡ false
    → let slot' = (acquire max_age now (returned taken) slot).1 in
      (find_entry id slot'.entries ≡ some (record e { retired = true }))
      × (slot'.closed ≡ slot.closed)
      × (slot'.pool ≡ slot.pool)
unfolding acquire rotate retire
acquire-left_behind max_age now taken id slot e c h u o n =
    let retired =
      update_first (λ e. e.session_id == id)
        (λ e. record e { retired = true; trusted = e.trusted && true }) slot.entries in
    ground (
      arith,
      c,
      h,
      u,
      o,
      n,
      find-set id id (λ e. record e { retired = true; trusted = e.trusted && true }) slot.entries
          (λ e. refl),
      find-without taken id retired,
      find-set taken id (λ e. record e { users = e.users + 1 })
          (new_entry now taken ∷ filter_where (λ e. not (e.session_id == taken)) retired)
          (λ e. refl),
    )
