-- ===== src/Worker/HotSession/Shutdown.antt =====
-- What `HotSessionSlot.close` leaves.
use plomio.Prelude.{
  ℕ, ◌+◌, ◌≡◌, Bool, none, List, [], ◌∷◌, ◌==◌, ◌&&◌, if◌then◌else◌, refl, arith, is_some, not,
  count_where, Bool-cases, inl, inr, ap, update_first, ==_iff,
}
use plomio.Worker.HotSession.{
  Slot, SlotEntry, find_entry, finalize_if_idle, force, force_entry, close_each, close_slot,
}
use plomio.Worker.HotSession.Current.{find-set, find-without}

-- The session has an entry.
abbrev pub has_entry : ℕ → List SlotEntry → Bool
has_entry s es = is_some (find_entry s es)

-- How often the client of the session has been closed.
abbrev pub closings : ℕ → Slot → ℕ
closings s slot = count_where (λ t. t == s) slot.closed

finalize-forced :
    (s id : ℕ) (slot : Slot)
    → let slot' = finalize_if_idle id (force_entry id slot) in
      (has_entry s slot'.entries ≡ (has_entry s slot.entries && not (id == s)))
      × (closings s slot'
          ≡ closings s slot + (if has_entry id slot.entries && (id == s) then 1 else 0))
unfolding finalize_if_idle
finalize-forced s id slot =
    let forced = update_first (λ e. e.session_id == id) force slot.entries in
    let own = find-set id id force slot.entries (λ e. refl) in
    let other = find-set id s force slot.entries (λ e. refl) in
    let gone = find-without id s forced in
    elim (Bool-cases (id == s)) [
      | inl same ↦
          ground (
            arith,
            same,
            own,
            other,
            gone,
            ap (λ k. has_entry k slot.entries) ((==_iff id s).0 same),
          )
      | inr differ ↦ ground (arith, differ, own, other, gone)
    ]

close_each-closings :
    (s : ℕ) (es : List SlotEntry) (slot : Slot)
    → let slot' = close_each es slot in
      (has_entry s slot'.entries ≡ (has_entry s slot.entries && not (has_entry s es)))
      × (closings s slot'
          ≡ closings s slot + (if has_entry s slot.entries && has_entry s es then 1 else 0))
unfolding close_each
close_each-closings s [] slot = ground arith
close_each-closings s (e ∷ es) slot =
    let next = finalize_if_idle e.session_id (force_entry e.session_id slot) in
    elim (Bool-cases (e.session_id == s)) [
      | inl same ↦ ground (
        arith,
        same,
        finalize-forced s e.session_id slot,
        close_each-closings s es next,
        ap (λ k. has_entry k slot.entries) ((==_iff e.session_id s).0 same),
      )
      | inr differ ↦
          ground (arith, differ, finalize-forced s e.session_id slot, close_each-closings s es next)
    ]

-- After the slot is closed it has no entry and no current session, and the client of each session
-- that had an entry has been closed once more, and that of no other.
pub close_slot-closings :
    (s : ℕ) (slot : Slot)
    → let slot' = close_slot slot in
      (find_entry s slot'.entries ≡ none)
      × (slot'.current ≡ none)
      × (closings s slot' ≡ closings s slot + (if has_entry s slot.entries then 1 else 0))
unfolding close_slot
close_slot-closings s slot = ground (arith, close_each-closings s slot.entries slot)
