-- ===== src/Worker/HotSession.antt =====
-- apps/worker_parser/src/hot_session.py: `HotSessionSlot`, the session that direct requests share.
-- A session is its id, and stands for its handle and its entry. What `_take_from_pool` gives is an
-- argument of `acquire`. `none` is the `KeyError` of a session that has no entry.
pub mod Current
pub mod Rotation
pub mod Shutdown
use plomio.Prelude.{
  ℕ, ◌+◌, ◌-◌, Bool, true, false, Option, none, some, List, [], ◌∷◌, leb, ltb, not, ◌||◌, ◌&&◌,
  ◌==◌, if◌then◌else◌, is_id, find_where, filter_where, update_first,
}
use plomio.Worker.Execution.{Given, returned, raised}

pub record SlotEntry : Type 0 where
  pub session_id : ℕ
  pub acquired_at : ℕ
  pub users : ℕ
  pub retired : Bool
  pub trusted : Bool

-- `_current` and `_entries`, with what the slot has done: the sessions that it has released to the
-- pool and those whose client it has closed, newest first.
pub record Slot : Type 0 where
  pub current : Option ℕ
  pub entries : List SlotEntry
  pub pool : List ℕ
  pub closed : List ℕ

abbrev pub find_entry : ℕ → List SlotEntry → Option SlotEntry
find_entry id = find_where (λ e. e.session_id == id)

-- A request leaves a session once, so a leaving session has a user and the difference is exact.
abbrev pub set_users : (ℕ → ℕ) → ℕ → Slot → Slot
set_users f id slot = record slot {
  entries =
      update_first (λ e. e.session_id == id) (λ e. record e { users = f e.users }) slot.entries;
}

-- `_is_too_old`
abbrev pub is_too_old : ℕ → ℕ → SlotEntry → Bool
is_too_old max_age now e = leb max_age (now - e.acquired_at)

-- `_retire`
unfoldable pub retire : ℕ → Bool → Slot → Slot
retire id trusted slot = record slot {
  entries =
      update_first (λ e. e.session_id == id)
        (λ e. record e { retired = true; trusted = e.trusted && trusted }) slot.entries;
  current = if is_id slot.current id then none else slot.current;
}

-- `_finalize_if_idle`
unfoldable pub finalize_if_idle : ℕ → Slot → Slot
finalize_if_idle id slot = elim (find_entry id slot.entries) [
  | none ↦ slot
  | some e ↦ if not e.retired || ltb 0 e.users then slot else record slot {
    entries = filter_where (λ e. not (e.session_id == id)) slot.entries;
    pool = if e.trusted then id ∷ slot.pool else slot.pool;
    closed = id ∷ slot.closed;
  }
]

abbrev pub new_entry : ℕ → ℕ → SlotEntry
new_entry now id = record {
  session_id = id;
  acquired_at = now;
  users = 0;
  retired = false;
  trusted = true;
}

-- The rotation at the start of `acquire`.
unfoldable pub rotate : ℕ → ℕ → Slot → Slot
unfolding retire
rotate max_age now slot = elim slot.current [
  | none ↦ slot
  | some id ↦ elim (find_entry id slot.entries) [
    | none ↦ slot
    | some e ↦ if is_too_old max_age now e then retire id true slot else slot
  ]
]

unfoldable pub acquire : ℕ → ℕ → Given ℕ → Slot → Given ℕ × Slot
unfolding rotate
acquire max_age now taken slot =
    let rotated = rotate max_age now slot in
    elim rotated.current [
      | some id ↦ (returned id, set_users (λ n. n + 1) id rotated)
      | none ↦ elim taken [
        | raised e ↦ (raised e, rotated)
        | returned id ↦ (
          returned id,
          set_users (λ n. n + 1) id
              (record rotated {
                current = some id;
                entries =
                    new_entry now id ∷ filter_where (λ e. not (e.session_id == id)) rotated.entries;
              }),
        )
      ]
    ]

unfoldable pub release : ℕ → Slot → Option Slot
unfolding finalize_if_idle
release id slot = elim (find_entry id slot.entries) [
  | none ↦ none
  | some e ↦ some (finalize_if_idle id (set_users (λ n. n - 1) id slot))
]

unfoldable pub discard : ℕ → Slot → Option Slot
unfolding finalize_if_idle retire
discard id slot = elim (find_entry id slot.entries) [
  | none ↦ none
  | some e ↦ some (finalize_if_idle id (retire id false (set_users (λ n. n - 1) id slot)))
]

-- An entry that `close` takes from its users.
abbrev pub force : SlotEntry → SlotEntry
force e = record e { retired = true; users = 0 }

abbrev pub force_entry : ℕ → Slot → Slot
force_entry id slot = record slot {
  entries = update_first (λ e. e.session_id == id) force slot.entries;
}

-- The loop of `close` over a copy of the entries.
unfoldable pub close_each : List SlotEntry → Slot → Slot
unfolding finalize_if_idle
close_each [] slot = slot
close_each (e ∷ es) slot =
    close_each es (finalize_if_idle e.session_id (force_entry e.session_id slot))

unfoldable pub close_slot : Slot → Slot
unfolding close_each
close_slot slot = record (close_each slot.entries slot) { current = none }
