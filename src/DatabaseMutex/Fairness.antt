-- ===== src/DatabaseMutex/Fairness.antt =====
-- core/notesnook-database-mutex.ts: the order in which requests get the gate.
use nook_bridge.Common.{
  ℕ, suc, ◌-◌, ◌≤◌, ◌<◌, ◌≡◌, ◌↔◌, ◌&&◌, leb, refl, ap, Bool, true, false, ◌∙◌, some, List, [], ◌∷◌,
  ◌++◌, inl, inr, arith, ◌==◌, if◌then◌else◌, Bool-cases, Option-cases,
}
use nook_bridge.DatabaseMutex.{
  Mode, exclusive, shared, Waiter, MutexState, Admission, granted, queued, depth_exceeded, admits,
  take, is_empty, join, acquire, shift, hand_over, drop_holder, release, cap, waiting,
}
use nook_bridge.DatabaseMutex.Invariant.{IsValid, mode_is_exclusive, HeadBlocked}

hand_over-append :
    (ws : List Waiter) (s : MutexState) → (hand_over ws s).1 ++ (hand_over ws s).0.waiters ≡ ws
unfolding hand_over
hand_over-append [] s = refl
hand_over-append (w ∷ ws) s = elim (Bool-cases (admits s w.mode)) [
  | inl free ↦ rw free (ap (λ r. w ∷ r) (hand_over-append ws _))
  | inr busy ↦ rw busy
]

drop_holder-waiters :
    (s t : MutexState) (m : Mode) → drop_holder s m ≡ some t → t.waiters ≡ s.waiters
unfolding drop_holder
drop_holder-waiters s t exclusive e = ground arith
drop_holder-waiters s t shared e = ground arith

-- The waiters that a release resumes are a front part of the queue, in arrival order, and the rest
-- stays queued in its order: nobody is dropped, doubled or overtaken.
pub release_in_order :
    (s : MutexState) (m : Mode) → (release s m).1 ++ (release s m).0.waiters ≡ s.waiters
unfolding release
release_in_order s m = elim (Option-cases (drop_holder s m)) [
  | inl e ↦ rw e
  | inr (t, e) ↦ rw e (hand_over-append t.waiters t ∙ drop_holder-waiters s t m e)
]

-- The next group of the queue: one exclusive waiter, or the shared waiters up to the next
-- exclusive one.
pub shared_front : List Waiter → List Waiter
shared_front [] = []
shared_front (w ∷ ws) = if mode_is_exclusive w.mode then [] else w ∷ shared_front ws

pub next_group : List Waiter → List Waiter
next_group [] = []
next_group (w ∷ ws) = if mode_is_exclusive w.mode then w ∷ [] else w ∷ shared_front ws

hand_over_exclusive :
    (ws : List Waiter) (s : MutexState) → s.exclusive_held ≡ true → (hand_over ws s).1 ≡ []
unfolding hand_over admits
hand_over_exclusive [] s e = refl
hand_over_exclusive (w ∷ ws) s e = ground arith

hand_over_shared :
    (ws : List Waiter) (s : MutexState)
    → s.exclusive_held ≡ false
    → 0 < s.shared_held
    → (hand_over ws s).1 ≡ shared_front ws
unfolding hand_over shared_front admits take shift
hand_over_shared [] s e h = refl
hand_over_shared (w ∷ ws) s e h =
    ground (arith, hand_over_shared ws (take (shift s ws w.mode) w.mode))

hand_over_free :
    (ws : List Waiter) (s : MutexState)
    → s.exclusive_held ≡ false
    → s.shared_held ≡ 0
    → (hand_over ws s).1 ≡ next_group ws
unfolding hand_over next_group admits take shift
hand_over_free [] s e h = refl
hand_over_free (w ∷ ws) s e h = ground (
  arith,
  hand_over_shared ws (take (shift s ws w.mode) w.mode),
  hand_over_exclusive ws (take (shift s ws w.mode) w.mode),
)

-- A holder of the mode is running, and whether it is the only one.
abbrev pub Holds : MutexState → Mode → Type 0
Holds s exclusive = s.exclusive_held ≡ true
Holds s shared = 0 < s.shared_held

abbrev pub is_last : MutexState → Mode → Bool
is_last s exclusive = true
is_last s shared = s.shared_held == 1

shared_front_blocked :
    (s : MutexState) (ws : List Waiter)
    → s.exclusive_held ≡ false
    → HeadBlocked s ws
    → shared_front ws ≡ []
unfolding shared_front admits
shared_front_blocked s [] e b = refl
shared_front_blocked s (w ∷ ws) e b = ground arith

-- In a valid gate the last holder to leave resumes exactly the next group of the queue, one
-- exclusive waiter or the shared ones in front, and a shared holder that leaves others behind
-- resumes nobody.
pub release_wakes :
    (s : MutexState) (m : Mode)
    → IsValid s
    → Holds s m
    → (release s m).1 ≡ (if is_last s m then next_group s.waiters else [])
unfolding release drop_holder
release_wakes s exclusive v h =
    ground (arith, hand_over_free s.waiters (record s { exclusive_held = false }))
release_wakes s shared v h = ground (
  arith,
  hand_over_free s.waiters (record s { shared_held = s.shared_held - 1 }),
  hand_over_shared s.waiters (record s { shared_held = s.shared_held - 1 }),
  shared_front_blocked s s.waiters,
)

-- Whether a request of a mode may run beside what holds the gate: an exclusive one beside nothing, a
-- shared one beside shared ones.
abbrev pub IsFree : MutexState → Mode → Type 0
IsFree s exclusive = (s.exclusive_held ≡ false) × (s.shared_held ≡ 0)
IsFree s shared = s.exclusive_held ≡ false

-- The gate with one more holder of a mode, and with one more waiter of it.
abbrev pub HeldOnce : MutexState → Mode → MutexState → Type 0
HeldOnce s exclusive t = (t.exclusive_held ≡ true) × (t.shared_held ≡ s.shared_held)
HeldOnce s shared t = (t.exclusive_held ≡ s.exclusive_held) × (t.shared_held ≡ suc s.shared_held)

abbrev pub other : Mode → Mode
other exclusive = shared
other shared = exclusive

-- What an answer tells of the gate before the request, and the gate after it.
abbrev pub Answered : MutexState → Mode → ℕ → MutexState × Admission → Type 0
Answered s m ticket (t, granted) =
    (waiting s m < cap m)
    × (s.waiters ≡ [])
    × IsFree s m
    × HeldOnce s m t
    × (t.waiters ≡ [])
    × (waiting t m ≡ waiting s m)
    × (waiting t (other m) ≡ waiting s (other m))
Answered s m ticket (t, queued) =
    (waiting s m < cap m)
    × ¬ ((s.waiters ≡ []) × IsFree s m)
    × (t.waiters ≡ s.waiters ++ (record { mode = m; ticket = ticket }) ∷ [])
    × (waiting t m ≡ suc (waiting s m))
    × (waiting t (other m) ≡ waiting s (other m))
    × (t.exclusive_held ≡ s.exclusive_held)
    × (t.shared_held ≡ s.shared_held)
Answered s m ticket (t, depth_exceeded) = (cap m ≤ waiting s m) × (t ≡ s)

IsFree-admits : (s : MutexState) (m : Mode) → IsFree s m ↔ (admits s m ≡ true)
unfolding admits
IsFree-admits s exclusive = (λ h. ground arith, λ h. ground arith)
IsFree-admits s shared = (λ h. ground arith, λ h. ground arith)

take-HeldOnce :
    (s : MutexState) (m : Mode)
    → HeldOnce s m (take s m)
      × ((take s m).waiters ≡ s.waiters)
      × (waiting (take s m) m ≡ waiting s m)
      × (waiting (take s m) (other m) ≡ waiting s (other m))
unfolding take
take-HeldOnce s exclusive = ((refl, refl), refl, refl, refl)
take-HeldOnce s shared = ((refl, refl), refl, refl, refl)

join_lem :
    (s : MutexState) (m : Mode) (ticket : ℕ)
    → ((join s m ticket).waiters ≡ s.waiters ++ (record { mode = m; ticket = ticket }) ∷ [])
      × (waiting (join s m ticket) m ≡ suc (waiting s m))
      × (waiting (join s m ticket) (other m) ≡ waiting s (other m))
      × ((join s m ticket).exclusive_held ≡ s.exclusive_held)
      × ((join s m ticket).shared_held ≡ s.shared_held)
join_lem s exclusive ticket = (refl, refl, refl, refl, refl)
join_lem s shared ticket = (refl, refl, refl, refl, refl)

is_empty-nil : (ws : List Waiter) → is_empty ws ≡ true → ws ≡ []
is_empty-nil [] h = refl
is_empty-nil (w ∷ ws) h = absurd (ground arith)

queued-Answered :
    (s : MutexState) (m : Mode) (ticket : ℕ)
    → waiting s m < cap m
    → (is_empty s.waiters && admits s m) ≡ false
    → Answered s m ticket (join s m ticket, queued)
queued-Answered s m ticket room held =
    let (waiters, own, others, running, sharing) = join_lem s m ticket in
    (
      room,
      λ (nobody, free).
          let admitted = (IsFree-admits s m).0 free in
          let empty : is_empty s.waiters ≡ true = ap is_empty nobody in absurd (ground arith),
      waiters,
      own,
      others,
      running,
      sharing,
    )

granted-Answered :
    (s : MutexState) (m : Mode) (ticket : ℕ)
    → waiting s m < cap m
    → (is_empty s.waiters && admits s m) ≡ true
    → Answered s m ticket (take s m, granted)
granted-Answered s m ticket room free =
    let nobody = is_empty-nil s.waiters (ground arith) in
    let (held, waiters, own, others) = take-HeldOnce s m in
    (room, nobody, (IsFree-admits s m).1 (ground arith), held, waiters ∙ nobody, own, others)

-- A request gets the gate exactly if its mode's queue has room, nobody waits and what holds the gate
-- lets it in, and then the gate has one more holder of its mode; it joins the end of the queue, and
-- the holders stay, exactly if its mode's queue has room and somebody waits or holds it off; and it
-- is rejected, with nothing changed, exactly if its mode's queue is full. The count of the other
-- mode's waiters never matters or changes.
pub acquire_cases :
    (s : MutexState) (m : Mode) (ticket : ℕ) → Answered s m ticket (acquire s m ticket)
unfolding acquire
acquire_cases s m ticket = elim (Bool-cases (leb (cap m) (waiting s m))) [
  | inl full ↦ rw full (ground arith, refl)
  | inr room ↦ elim (Bool-cases (is_empty s.waiters && admits s m)) [
    | inl free ↦ rw (room, free) (granted-Answered s m ticket (ground arith) free)
    | inr held ↦ rw (room, held) (queued-Answered s m ticket (ground arith) held)
  ]
]
