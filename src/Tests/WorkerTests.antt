-- ===== src/Tests/WorkerTests.antt =====
-- An executor whose first session is blocked.
use plomio.Prelude.{ℕ, zero, suc, none, some, [], ◌∷◌, Bool, true, refl, ◌≤◌, ◌≡◌, ◌+◌, suc, false}
use plomio.Worker.Retry.{blocked, resolve_retry_policy}
use plomio.Worker.HotSession.{Slot, SlotEntry, acquire as acquire_slot, release, find_entry}
use plomio.Worker.HotSession.Current.{is_current, SlotCall, run_slot, run_slot-is_current}
use plomio.Worker.HotSession.Rotation.{serves, acquire-serves, release-last, acquire-left_behind}
use plomio.Worker.Execution.{Given, returned, raised, Outcome, value, Executor, close, run}
use plomio.Worker.Execution.Attempts.{run-ends}
use plomio.Worker.Execution.Sessions.{times, close-run}

abbrev acquire : ℕ → Given ℕ
acquire n = returned (n + 50)

-- The first session is blocked, any other gets the page.
abbrev call : ℕ → ℕ → Bool → Given ℕ
call zero s confirm = raised (blocked none)
call (suc n) s confirm = returned s

abbrev fresh : Executor
fresh = record {
  handle = none;
  acquired = [];
  discarded = [];
  released = [];
  acquire_calls = 0;
  attempts = 0;
}

abbrev used : Executor
used = record {
  handle = some 51;
  acquired = 51 ∷ 50 ∷ [];
  discarded = 50 ∷ [];
  released = [];
  acquire_calls = 2;
  attempts = 2;
}

run-fresh : run acquire call true (some 2) fresh ≡ some (value 51, used)
unfolding run resolve_retry_policy
run-fresh = refl

run-ends_example :
    (o : Outcome ℕ) × (x : Executor) × (run acquire call true none fresh ≡ some (o, x))
    × (x.attempts ≤ 0 + 4)
run-ends_example = run-ends acquire call true none fresh

close-run_example :
    ((close used).handle ≡ none)
    × (times 50 (close used).acquired
        ≡ times 50 (close used).discarded + times 50 (close used).released)
close-run_example = close-run acquire call 50 true (some 2) fresh (value 51) used refl run-fresh

-- A slot whose session has had no user since it was taken.
abbrev idle_slot : Slot
idle_slot = record {
  current = some 7;
  entries =
      record { session_id = 7; acquired_at = 0; users = 0; retired = false; trusted = true } ∷ [];
  pool = [];
  closed = [];
}

abbrev retired_entry : SlotEntry
retired_entry = record {
  session_id = 7;
  acquired_at = 0;
  users = 1;
  retired = true;
  trusted = true;
}

abbrev leaving_slot : Slot
leaving_slot = record { current = none; entries = retired_entry ∷ []; pool = []; closed = [] }

abbrev left_slot : Slot
left_slot = record { current = none; entries = []; pool = 7 ∷ []; closed = 7 ∷ [] }

run_slot-is_current_example :
    is_current
      (run_slot 60 (SlotCall.acquires 100 (returned 8) ∷ SlotCall.discards 8 ∷ []) idle_slot)
    ≡ true
unfolding is_current
run_slot-is_current_example =
    run_slot-is_current 60 (SlotCall.acquires 100 (returned 8) ∷ SlotCall.discards 8 ∷ []) idle_slot
      refl

acquire-serves_example : serves 8 (acquire_slot 60 100 (returned 8) idle_slot).1 ≡ true
unfolding is_current acquire_slot
acquire-serves_example = acquire-serves 60 100 (returned 8) idle_slot 8 refl refl

release-last_example : (left_slot.closed ≡ 7 ∷ []) × (left_slot.pool ≡ 7 ∷ [])
unfolding release
release-last_example = release-last 7 leaving_slot left_slot retired_entry refl refl

acquire-left_behind_example :
    let slot = (acquire_slot 60 100 (returned 8) idle_slot).1 in
    (find_entry 7 slot.entries
      ≡ some
          (record { session_id = 7; acquired_at = 0; users = 0; retired = true; trusted = true }))
    × (slot.closed ≡ [])
    × (slot.pool ≡ [])
acquire-left_behind_example =
    acquire-left_behind 60 100 8 7 idle_slot
      (record { session_id = 7; acquired_at = 0; users = 0; retired = false; trusted = true }) refl
      refl refl refl refl
