-- ===== src/DatabaseMutex/Invariant.antt =====
-- core/notesnook-database-mutex.ts: what holds of a gate between two calls.
use nook_bridge.Common.{
  ℕ, ◌≤◌, ◌<◌, ◌≡◌, refl, Bool, true, false, not, ◌&&◌, ◌∙◌, some, List, [], ◌∷◌, ◌++◌, arith, leb,
  count, count-append, Bool-cases, Option-cases, inl, inr,
}
use nook_bridge.DatabaseMutex.{
  Mode, exclusive, shared, Waiter, MutexState, max_depth, max_shared_depth, admits, take, join,
  is_empty, acquire, shift, hand_over, drop_holder, release, fresh, cap, waiting,
}

abbrev pub mode_is_exclusive : Mode → Bool
mode_is_exclusive exclusive = true
mode_is_exclusive shared = false

abbrev pub is_exclusive : Waiter → Bool
is_exclusive w = mode_is_exclusive w.mode

abbrev pub is_shared : Waiter → Bool
is_shared w = not (mode_is_exclusive w.mode)

-- The counters and the holders fit a queue `ws`.
pub record Fits (ws : List Waiter) (s : MutexState) : Type 0 where
  pub alone : s.exclusive_held ≡ true → s.shared_held ≡ 0
  pub exclusive_counted : s.exclusive_waiting ≡ count is_exclusive ws
  pub shared_counted : s.shared_waiting ≡ count is_shared ws
  pub exclusive_bounded : s.exclusive_waiting ≤ max_depth
  pub shared_bounded : s.shared_waiting ≤ max_shared_depth

-- The head of a queue waits for a holder: the gate does not admit its mode.
abbrev pub HeadBlocked : MutexState → List Waiter → Type 0
HeadBlocked s [] = Unit
HeadBlocked s (w ∷ ws) = admits s w.mode ≡ false

pub record IsValid (s : MutexState) : Type 0 where
  pub fits : Fits s.waiters s
  pub blocked : HeadBlocked s s.waiters

pub fresh-IsValid : IsValid fresh
fresh-IsValid = record { fits = omega arith; blocked = tt }

take-Fits :
    (w : Waiter) (rest : List Waiter) (s : MutexState)
    → admits s w.mode ≡ true
    → Fits (w ∷ rest) s
    → Fits rest (take (shift s rest w.mode) w.mode)
unfolding admits take shift
take-Fits w rest s a f = ground arith

set_waiters-Fits :
    (ws : List Waiter) (s : MutexState) → Fits ws s → Fits ws (record s { waiters = ws })
set_waiters-Fits ws s f = ground arith

-- The queue and its counters play no part in `admits`.
admits_waiters :
    (ws : List Waiter) (s : MutexState) (m : Mode)
    → admits (record s { waiters = ws }) m ≡ admits s m
unfolding admits
admits_waiters ws s exclusive = refl
admits_waiters ws s shared = refl

admits-join :
    (s : MutexState) (m : Mode) (ticket : ℕ) (n : Mode) → admits (join s m ticket) n ≡ admits s n
unfolding admits
admits-join s exclusive ticket exclusive = refl
admits-join s exclusive ticket shared = refl
admits-join s shared ticket exclusive = refl
admits-join s shared ticket shared = refl

hand_over-IsValid : (ws : List Waiter) (s : MutexState) → Fits ws s → IsValid (hand_over ws s).0
unfolding hand_over
hand_over-IsValid [] s f = record { fits = ground arith; blocked = tt }
hand_over-IsValid (w ∷ rest) s f = elim (Bool-cases (admits s w.mode)) [
  | inl open_ ↦ rw open_ (hand_over-IsValid rest _ (take-Fits w rest s open_ f))
  | inr shut ↦
      rw shut (record { fits = ground arith; blocked = admits_waiters (w ∷ rest) s w.mode ∙ shut })
]

drop_holder-Fits :
    (s t : MutexState) (m : Mode) → IsValid s → drop_holder s m ≡ some t → Fits t.waiters t
unfolding drop_holder
drop_holder-Fits s t m v e = ground arith

-- Releasing keeps the gate valid: in particular the head of the queue is never left waiting on a
-- gate that would admit it.
pub release-IsValid : (s : MutexState) (m : Mode) → IsValid s → IsValid (release s m).0
unfolding release
release-IsValid s m v = elim (Option-cases (drop_holder s m)) [
  | inl e ↦ rw e v
  | inr (t, e) ↦ rw e (hand_over-IsValid t.waiters t (drop_holder-Fits s t m v e))
]

HeadBlocked-append :
    (s t : MutexState) (w : Waiter) (ws : List Waiter)
    → ((m : Mode) → admits t m ≡ admits s m)
    → HeadBlocked s ws
    → (is_empty ws && admits s w.mode) ≡ false
    → HeadBlocked t (ws ++ w ∷ [])
HeadBlocked-append s t w [] same b e = same w.mode ∙ e
HeadBlocked-append s t w (x ∷ ws) same b e = same x.mode ∙ b

take-IsValid :
    (s : MutexState) (m : Mode)
    → IsValid s
    → (is_empty s.waiters && admits s m) ≡ true
    → IsValid (take s m)
unfolding take admits
take-IsValid s exclusive v e = ground arith
take-IsValid s shared v e = ground arith

join-IsValid :
    (s : MutexState) (m : Mode) (ticket : ℕ)
    → IsValid s
    → waiting s m < cap m
    → (is_empty s.waiters && admits s m) ≡ false
    → IsValid (join s m ticket)
join-IsValid s exclusive ticket v lt e =
    let w : Waiter = record { mode = exclusive; ticket = ticket } in
    record {
      fits = ground (
        arith,
        count-append is_exclusive s.waiters (w ∷ []),
        count-append is_shared s.waiters (w ∷ []),
      );
      blocked = HeadBlocked-append s _ w s.waiters (admits-join s exclusive ticket) v.blocked e;
    }
join-IsValid s shared ticket v lt e =
    let w : Waiter = record { mode = shared; ticket = ticket } in
    record {
      fits = ground (
        arith,
        count-append is_exclusive s.waiters (w ∷ []),
        count-append is_shared s.waiters (w ∷ []),
      );
      blocked = HeadBlocked-append s _ w s.waiters (admits-join s shared ticket) v.blocked e;
    }

-- Asking for the gate keeps it valid.
pub acquire-IsValid :
    (s : MutexState) (m : Mode) (ticket : ℕ) → IsValid s → IsValid (acquire s m ticket).0
unfolding acquire
acquire-IsValid s m ticket v = elim (Bool-cases (leb (cap m) (waiting s m))) [
  | inl full ↦ rw full v
  | inr room ↦ elim (Bool-cases (is_empty s.waiters && admits s m)) [
    | inl free ↦ rw (room, free) (take-IsValid s m v free)
    | inr busy ↦ rw (room, busy) (join-IsValid s m ticket v (ground arith) busy)
  ]
]
