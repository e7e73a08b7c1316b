-- ===== src/DatabaseMutex/World/Liveness.antt =====
-- core/notesnook-database-mutex.ts: every accepted request starts, once enough running functions
-- have ended.
use nook_bridge.Common.{
  ℕ, zero, suc, ◌+◌, ◌≤◌, ◌<◌, ◌≡◌, ◌⊎◌, refl, ap, sym, false, ◌∙◌, List, [], ◌∷◌, ◌++◌, inl, inr,
  arith, ◌==◌, if◌then◌else◌, Bool-cases, length, length-append, count,
}
use mathlib.Core.List.{append-nil}
use nook_bridge.DatabaseMutex.{Mode, exclusive, shared, Waiter, MutexState, admits, release}
use nook_bridge.DatabaseMutex.Invariant.{HeadBlocked, is_exclusive, is_shared}
use nook_bridge.DatabaseMutex.Fairness.{release_in_order}
use nook_bridge.DatabaseMutex.World.{World, running, finish, finish-Inv, Inv, Reach, Reach-Inv}

-- Some running function ends: an exclusive one if it is there.
finish_any : World → World
finish_any w =
    if w.gate.exclusive_held
    then finish w exclusive
    else if w.gate.shared_held == 0
    then w
    else finish w shared

pub finish_rounds : ℕ → World → World
finish_rounds zero w = w
finish_rounds (suc n) w = finish_rounds n (finish_any w)

abbrev pub load : World → ℕ
load w = w.exclusive_running + w.shared_running + length w.gate.waiters

count_modes : (ws : List Waiter) → count is_exclusive ws + count is_shared ws ≡ length ws
count_modes [] = refl
count_modes (w ∷ ws) = ground (arith, count_modes ws)

load-finish : (w : World) (m : Mode) → 0 < running w m → Inv w → suc (load (finish w m)) ≡ load w
unfolding finish
load-finish w exclusive h i =
    let (gate, woken) = release w.gate exclusive in
    omega (
      arith,
      count_modes woken,
      length-append woken gate.waiters,
      ap length (release_in_order w.gate exclusive),
    )
load-finish w shared h i =
    let (gate, woken) = release w.gate shared in
    omega (
      arith,
      count_modes woken,
      length-append woken gate.waiters,
      ap length (release_in_order w.gate shared),
    )

finish-accepted : (w : World) (m : Mode) → (finish w m).accepted ≡ w.accepted
unfolding finish
finish-accepted w exclusive = refl
finish-accepted w shared = refl

-- With nobody running, nobody waits.
idle_empty :
    (s : MutexState) (ws : List Waiter)
    → HeadBlocked s ws
    → s.exclusive_held ≡ false
    → s.shared_held ≡ 0
    → ws ≡ []
unfolding admits
idle_empty s [] b e h = refl
idle_empty s (w ∷ ws) b e h = ground arith

finish_any_cases :
    (w : World)
    → Inv w
    → ((finish_any w ≡ w)
        × (w.gate.waiters ≡ [])
        × (w.exclusive_running ≡ 0)
        × (w.shared_running ≡ 0))
      ⊎ ((m : Mode) × (0 < running w m) × (finish_any w ≡ finish w m))
unfolding finish_any
finish_any_cases w i = elim (Bool-cases w.gate.exclusive_held) [
  | inl held ↦ inr (exclusive, ground (arith, i.exclusive_known), rw held)
  | inr free ↦ elim (Bool-cases (w.gate.shared_held == 0)) [
    | inl none_ ↦ inl (
      rw (free, none_),
      idle_empty w.gate w.gate.waiters i.valid.blocked free (ground arith),
      ground (arith, i.exclusive_known),
      ground (arith, i.shared_known),
    )
    | inr some_ ↦ inr (shared, ground (arith, i.shared_known), rw (free, some_))
  ]
]

idle_rounds : (n : ℕ) (w : World) → finish_any w ≡ w → finish_rounds n w ≡ w
unfolding finish_rounds
idle_rounds zero w e = refl
idle_rounds (suc n) w e = rw e (idle_rounds n w e)

finish_rounds_start_all :
    (n : ℕ) (w : World)
    → Inv w
    → load w ≤ n
    → let u = finish_rounds n w in
      (u.started ≡ w.accepted)
      × (u.gate.waiters ≡ [])
      × (u.exclusive_running ≡ 0)
      × (u.shared_running ≡ 0)
unfolding finish_rounds
finish_rounds_start_all zero w i h = elim (finish_any_cases w i) [
  | inl (same, empty, e, s) ↦ (
    sym (append-nil w.started) ∙ (ap (λ l. w.started ++ l) (sym empty) ∙ i.in_order),
    empty,
    e,
    s,
  )
  | inr (m, r, e) ↦ absurd (omega (arith, load-finish w m r i))
]
finish_rounds_start_all (suc n) w i h = elim (finish_any_cases w i) [
  | inl (same, empty, e, s) ↦
      let stays : finish_rounds (suc n) w ≡ w = idle_rounds (suc n) w same in
      rw stays (
        sym (append-nil w.started) ∙ (ap (λ l. w.started ++ l) (sym empty) ∙ i.in_order),
        empty,
        e,
        s,
      )
  | inr (m, r, e) ↦
      let moves : finish_rounds (suc n) w ≡ finish_rounds n (finish w m) = ap (finish_rounds n) e in
      let (started, empty, x, y) =
        finish_rounds_start_all n (finish w m) (finish-Inv w m r i)
          (omega (arith, load-finish w m r i)) in
      rw moves (started ∙ finish-accepted w m, empty, x, y)
]

-- From any reachable world, once as many running functions have ended as there were running and
-- queued requests, every accepted request has started, in the order of arrival, nobody waits and
-- nothing runs.
pub every_request_starts :
    {w : World} (n : ℕ)
    → Reach w
    → load w ≤ n
    → let u = finish_rounds n w in
      (u.started ≡ w.accepted)
      × (u.gate.waiters ≡ [])
      × (u.exclusive_running ≡ 0)
      × (u.shared_running ≡ 0)
every_request_starts {w} n r h = finish_rounds_start_all n w (Reach-Inv r) h
