-- ===== src/DatabaseMutex/Registry.antt =====
-- core/notesnook-database-mutex.ts: the gates of all databases, and the checks on a call.
use nook_bridge.Common.{
  ℕ, ◌≡◌, ◌≢◌, ◌⊎◌, refl, true, false, ◌&&◌, none, arith, ◌==◌, if◌then◌else◌, Bool-cases, inl, inr,
}
use nook_bridge.DatabaseMutex.{
  Mode, States, GateCall, label_is_valid, MutexState, store, require_state, run_under_gate,
  finish_run, acquire, release,
}
use nook_bridge.DatabaseMutex.Invariant.{IsValid, acquire-IsValid, release-IsValid}

abbrev pub AllValid : States → Type 0
AllValid states = (db : ℕ) → IsValid (require_state states db)

require_state-store :
    (states : States) (db : ℕ) (s : MutexState) (other : ℕ)
    → require_state (store states db s) other
      ≡ (if other == db then s else require_state states other)
unfolding require_state
require_state-store states db s other = elim (Bool-cases (other == db)) [
  | inl e ↦ rw (e, require_state)
  | inr e ↦ rw (e, require_state)
]

store-AllValid :
    (states : States) (db : ℕ) (s : MutexState)
    → AllValid states
    → IsValid s
    → AllValid (store states db s)
store-AllValid states db s v h other = elim (Bool-cases (other == db)) [
  | inl e ↦ rw (require_state-store, e) h
  | inr e ↦ rw (require_state-store, e) (v other)
]

ne_test : (a b : ℕ) → a ≢ b → (a == b) ≡ false
ne_test a b h = ground arith

-- Asking for the gate of one database leaves the gate of every other database as it is; a call with
-- good arguments is answered, and one with a bad argument is rejected with every gate as it was.
pub run_under_gate_is_local :
    (states : States) (mode : Mode) (c : GateCall) (ticket other : ℕ)
    → other ≢ c.database
    → let ok_args = c.database_is_record && label_is_valid c.label && c.fn_is_function in
      let (after, answer) = run_under_gate states mode c ticket in
      (((ok_args ≡ true) × (answer ≢ none))
        ⊎ ((ok_args ≡ false) × (answer ≡ none) × (after ≡ states)))
      × (require_state after other ≡ require_state states other)
unfolding run_under_gate
run_under_gate_is_local states mode c ticket other d =
    elim (Bool-cases (c.database_is_record && label_is_valid c.label && c.fn_is_function)) [
      | inl e ↦ rw e (inl (refl, λ n. ground arith), rw (require_state-store, ne_test _ _ d))
      | inr e ↦ rw e (inr (refl, refl, refl), refl)
    ]

-- Every call, and every end of a function that ran under a gate, keeps every gate valid.
pub run_under_gate-AllValid :
    (states : States) (mode : Mode) (c : GateCall) (ticket : ℕ)
    → AllValid states
    → AllValid (run_under_gate states mode c ticket).0
      × AllValid (finish_run states mode c.database).0
unfolding run_under_gate finish_run
run_under_gate-AllValid states mode c ticket v =
    let s = require_state states c.database in
    let stored =
      store-AllValid states c.database (acquire s mode ticket).0 v
        (acquire-IsValid s mode ticket (v c.database)) in
    (
      elim (Bool-cases (c.database_is_record && label_is_valid c.label && c.fn_is_function)) [
        | inl e ↦ rw e stored
        | inr e ↦ rw e v
      ],
      store-AllValid states c.database (release s mode).0 v (release-IsValid s mode (v c.database)),
    )
