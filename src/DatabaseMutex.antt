-- ===== src/DatabaseMutex.antt =====
-- core/notesnook-database-mutex.ts: the gate of one database. A waiter's `grant` closure is the
-- ticket of the request that it resumes; a promise that resolves at once is `granted`.
pub mod Invariant
pub mod Fairness
pub mod World
pub mod Registry
mod Tests
use nook_bridge.Common.{
  ℕ, suc, ◌+◌, ◌-◌, Bool, true, false, not, ◌&&◌, ◌||◌, Option, none, some, List, [], ◌∷◌, ◌++◌,
  Text, leb, ltb, ◌==◌, if◌then◌else◌, length,
}

-- `MAX_DEPTH` and `MAX_SHARED_DEPTH`.
abbrev pub max_depth : ℕ
max_depth = 64

abbrev pub max_shared_depth : ℕ
max_shared_depth = 192

pub data Mode : Type 0 where
  exclusive shared : Mode

pub record Waiter : Type 0 where
  pub mode : Mode
  pub ticket : ℕ

pub record MutexState : Type 0 where
  pub exclusive_held : Bool
  pub shared_held : ℕ
  pub waiters : List Waiter
  pub exclusive_waiting : ℕ
  pub shared_waiting : ℕ

abbrev pub fresh : MutexState
fresh = record {
  exclusive_held = false;
  shared_held = 0;
  waiters = [];
  exclusive_waiting = 0;
  shared_waiting = 0;
}

abbrev pub waiting : MutexState → Mode → ℕ
waiting s exclusive = s.exclusive_waiting
waiting s shared = s.shared_waiting

abbrev pub cap : Mode → ℕ
cap exclusive = max_depth
cap shared = max_shared_depth

unfoldable pub admits : MutexState → Mode → Bool
admits s exclusive = if s.exclusive_held then false else s.shared_held == 0
admits s shared = if s.exclusive_held then false else true

unfoldable pub take : MutexState → Mode → MutexState
take s exclusive = record s { exclusive_held = true }
take s shared = record s { shared_held = suc s.shared_held }

-- What `acquire` answers: the gate at once, a place in the queue, or a rejection.
pub data Admission : Type 0 where
  granted queued depth_exceeded : Admission

abbrev pub join : MutexState → Mode → ℕ → MutexState
join s exclusive ticket = record s {
  waiters = s.waiters ++ (record { mode = exclusive; ticket = ticket }) ∷ [];
  exclusive_waiting = suc s.exclusive_waiting;
}
join s shared ticket = record s {
  waiters = s.waiters ++ (record { mode = shared; ticket = ticket }) ∷ [];
  shared_waiting = suc s.shared_waiting;
}

abbrev pub is_empty : List Waiter → Bool
is_empty [] = true
is_empty (w ∷ ws) = false

unfoldable pub acquire : MutexState → Mode → ℕ → MutexState × Admission
unfolding take admits
acquire s mode ticket =
    if leb (cap mode) (waiting s mode)
    then (s, depth_exceeded)
    else if is_empty s.waiters && admits s mode
    then (take s mode, granted)
    else (join s mode ticket, queued)

-- `state.waiters.shift()` and the count of the head's mode.
unfoldable pub shift : MutexState → List Waiter → Mode → MutexState
shift s rest exclusive = record s { waiters = rest; exclusive_waiting = s.exclusive_waiting - 1 }
shift s rest shared = record s { waiters = rest; shared_waiting = s.shared_waiting - 1 }

-- The loop of `release` over the queue: the new state, and the waiters granted, in order.
unfoldable pub hand_over : List Waiter → MutexState → MutexState × List Waiter
hand_over [] s = (record s { waiters = [] }, [])
hand_over (head ∷ rest) s =
    let (s', woken) = hand_over rest (take (shift s rest head.mode) head.mode) in
    if admits s head.mode then (s', head ∷ woken) else (record s { waiters = head ∷ rest }, [])

-- The part of `release` before the loop; `none` is its early return.
unfoldable pub drop_holder : MutexState → Mode → Option MutexState
drop_holder s exclusive =
    if s.exclusive_held then some (record s { exclusive_held = false }) else none
drop_holder s shared =
    if s.shared_held == 0 then none else some (record s { shared_held = s.shared_held - 1 })

abbrev pub wake : MutexState → Option MutexState → MutexState × List Waiter
wake s none = (s, [])
wake s (some t) = hand_over t.waiters t

unfoldable pub release : MutexState → Mode → MutexState × List Waiter
release s mode = wake s (drop_holder s mode)

-- `peekMutex`.
pub record Peek : Type 0 where
  pub depth : ℕ
  pub queue : ℕ

unfoldable pub peek_mutex : Option MutexState → Peek
peek_mutex none = record { depth = 0; queue = 0 }
peek_mutex (some s) = record {
  depth = if s.exclusive_held then 1 else s.shared_held;
  queue = length s.waiters;
}

-- `STATES`, and the checks of `runUnderGate` on its arguments: a database that is an object, a label
-- that is a string of 1 to 64 units (`none` is any other value), and a function.
abbrev pub States : Type 0
States = ℕ → Option MutexState

pub record GateCall : Type 0 where
  pub database_is_record : Bool
  pub database : ℕ
  pub label : Option Text
  pub fn_is_function : Bool

abbrev pub label_is_valid : Option Text → Bool
label_is_valid none = false
label_is_valid (some l) = not (length l == 0) && leb (length l) 64

abbrev pub or_fresh : Option MutexState → MutexState
or_fresh none = fresh
or_fresh (some s) = s

unfoldable pub require_state : States → ℕ → MutexState
require_state states db = or_fresh (states db)

abbrev pub store : States → ℕ → MutexState → States
store states db s other = if other == db then some s else states other

-- The synchronous part of `runUnderGate`; `none` is the rejection `invalid_input`.
unfoldable pub run_under_gate : States → Mode → GateCall → ℕ → States × Option Admission
run_under_gate states mode c ticket =
    let (s, answer) = acquire (require_state states c.database) mode ticket in
    if c.database_is_record && label_is_valid c.label && c.fn_is_function
    then (store states c.database s, some answer)
    else (states, none)

-- The `finally` of `run`: the holder releases whatever `fn` did.
unfoldable pub finish_run : States → Mode → ℕ → States × List Waiter
finish_run states mode db =
    let (s, woken) = release (require_state states db) mode in (store states db s, woken)
