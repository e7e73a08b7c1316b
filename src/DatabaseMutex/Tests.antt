-- ===== src/DatabaseMutex/Tests.antt =====
-- core/notesnook-database-mutex.ts: the theorems on concrete gates, and some runs.
use nook_bridge.Common.{
  ℕ, ◌≤◌, ◌≡◌, ◌⊎◌, refl, true, none, some, [], ◌∷◌, arith, codes, if◌then◌else◌,
}
use nook_bridge.DatabaseMutex.{
  Mode, exclusive, shared, Waiter, MutexState, admits, take, shift, hand_over, drop_holder, acquire,
  release, States, GateCall, require_state,
}
use nook_bridge.DatabaseMutex.Invariant.{IsValid, fresh-IsValid, acquire-IsValid}
use nook_bridge.DatabaseMutex.Fairness.{release_wakes, acquire_cases, Answered, is_last, next_group}
use nook_bridge.DatabaseMutex.World.{
  World, start, arrive, Reach, here, next, arrives, mutual_exclusion,
}
use nook_bridge.DatabaseMutex.World.Liveness.{finish_rounds, every_request_starts, load}
use nook_bridge.DatabaseMutex.Registry.{AllValid}

abbrev waiter : Mode → ℕ → Waiter
waiter m n = record { mode = m; ticket = n }

-- An exclusive function runs; two shared requests and an exclusive one wait.
abbrev busy : MutexState
busy = record {
  exclusive_held = true;
  shared_held = 0;
  waiters = waiter shared 1 ∷ waiter shared 2 ∷ waiter exclusive 3 ∷ [];
  exclusive_waiting = 1;
  shared_waiting = 2;
}

busy-IsValid : IsValid busy
unfolding admits
busy-IsValid = record { fits = ground arith; blocked = refl }

-- The shared waiters in front are resumed together, and the exclusive one behind them is not.
busy-release : (release busy exclusive).1 ≡ waiter shared 1 ∷ waiter shared 2 ∷ []
unfolding release drop_holder hand_over admits take shift
busy-release = refl

release_wakes_example :
    (release busy exclusive).1 ≡ (if is_last busy exclusive then next_group busy.waiters else [])
release_wakes_example = release_wakes busy exclusive busy-IsValid refl

acquire-IsValid_example : IsValid (acquire busy shared 4).0
acquire-IsValid_example = acquire-IsValid busy shared 4 busy-IsValid

acquire_cases_example : Answered busy shared 4 (acquire busy shared 4)
acquire_cases_example = acquire_cases busy shared 4

-- A shared request does not pass an exclusive one that waits.
abbrev three : World
three = arrive (arrive (arrive start (waiter shared 1)) (waiter exclusive 2)) (waiter shared 3)

three_reached : Reach three
three_reached = next (next (next here (arrives _ _)) (arrives _ _)) (arrives _ _)

mutual_exclusion_example :
    (three.exclusive_running ≤ 1) × ((three.exclusive_running ≡ 0) ⊎ (three.shared_running ≡ 0))
mutual_exclusion_example = mutual_exclusion three_reached

every_request_starts_example :
    let u = finish_rounds (load three) three in
    (u.started ≡ three.accepted)
    × (u.gate.waiters ≡ [])
    × (u.exclusive_running ≡ 0)
    × (u.shared_running ≡ 0)
every_request_starts_example = every_request_starts (load three) three_reached (omega arith)

abbrev call : GateCall
call = record {
  database_is_record = true;
  database = 7;
  label = some (codes "sync");
  fn_is_function = true;
}

abbrev no_states : States
no_states db = none

no_states-AllValid : AllValid no_states
unfolding require_state
no_states-AllValid db = fresh-IsValid
