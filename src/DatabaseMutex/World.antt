-- ===== src/DatabaseMutex/World.antt =====
-- core/notesnook-database-mutex.ts: a gate with the requests that arrive at it and the functions
-- that run under it, as steps. A request is its waiter; a log keeps who was accepted and who
-- started, both in order.
pub mod Liveness
use nook_bridge.Common.{
  ℕ, zero, suc, ◌+◌, ◌-◌, ◌≤◌, ◌<◌, ◌≡◌, ◌⊎◌, refl, ap, sym, Bool, true, false, ◌∙◌, List, [], ◌∷◌,
  ◌++◌, inl, inr, arith, ◌==◌, if◌then◌else◌, Bool-cases, length, length-append, count,
}
use mathlib.Core.List.{append_assoc, append-nil}
use nook_bridge.DatabaseMutex.{
  Mode, exclusive, shared, Waiter, MutexState, Admission, granted, queued, depth_exceeded, admits,
  take, acquire, shift, hand_over, drop_holder, release, fresh,
}
use nook_bridge.DatabaseMutex.Invariant.{
  IsValid, HeadBlocked, mode_is_exclusive, is_exclusive, is_shared, fresh-IsValid, release-IsValid,
  acquire-IsValid,
}
use nook_bridge.DatabaseMutex.Fairness.{release_in_order, Holds}

pub record World : Type 0 where
  pub gate : MutexState
  pub accepted : List Waiter
  pub started : List Waiter
  pub exclusive_running : ℕ
  pub shared_running : ℕ

pub start : World
start = record {
  gate = fresh;
  accepted = [];
  started = [];
  exclusive_running = 0;
  shared_running = 0;
}

-- The functions of granted requests start to run.
run_all : World → List Waiter → World
run_all w ws = record w {
  started = w.started ++ ws;
  exclusive_running = w.exclusive_running + count is_exclusive ws;
  shared_running = w.shared_running + count is_shared ws;
}

abbrev settle : World → MutexState → Waiter → Admission → World
settle w gate r granted =
    run_all (record w { gate = gate; accepted = w.accepted ++ r ∷ [] }) (r ∷ [])
settle w gate r queued = record w { gate = gate; accepted = w.accepted ++ r ∷ [] }
settle w gate r depth_exceeded = record w { gate = gate }

pub arrive : World → Waiter → World
unfolding run_all
arrive w r = let (gate, answer) = acquire w.gate r.mode r.ticket in settle w gate r answer

abbrev pub running : World → Mode → ℕ
running w exclusive = w.exclusive_running
running w shared = w.shared_running

abbrev leave : World → Mode → World
leave w exclusive = record w { exclusive_running = w.exclusive_running - 1 }
leave w shared = record w { shared_running = w.shared_running - 1 }

-- A running function ends, with a value or by a throw, and releases the gate.
pub finish : World → Mode → World
unfolding run_all
finish w m =
    let (gate, woken) = release w.gate m in run_all (record (leave w m) { gate = gate }) woken

pub data Step : World → World → Type 0 where
  arrives : (w : World) (r : Waiter) → Step w (arrive w r)
  finishes : (w : World) (m : Mode) → 0 < running w m → Step w (finish w m)

pub data Reach : World → Type 0 where
  here : Reach start
  next : {w u : World} → Reach w → Step w u → Reach u

abbrev one_if : Bool → ℕ
one_if true = 1
one_if false = 0

-- The gate knows who runs, and everybody accepted has started or is queued, in order.
pub record Inv (w : World) : Type 0 where
  pub valid : IsValid w.gate
  pub exclusive_known : w.exclusive_running ≡ one_if w.gate.exclusive_held
  pub shared_known : w.shared_running ≡ w.gate.shared_held
  pub in_order : w.started ++ w.gate.waiters ≡ w.accepted

start-Inv : Inv start
unfolding start
start-Inv = record {
  valid = fresh-IsValid;
  exclusive_known = refl;
  shared_known = refl;
  in_order = refl;
}

abbrev holders : MutexState → ℕ
holders s = one_if s.exclusive_held

-- The waiters that a hand-over resumes become holders.
hand_over-holders :
    (ws : List Waiter) (s : MutexState)
    → let (t, woken) = hand_over ws s in
      (holders t ≡ holders s + count is_exclusive woken)
      × (t.shared_held ≡ s.shared_held + count is_shared woken)
unfolding hand_over admits take shift
hand_over-holders [] s = omega arith
hand_over-holders (w ∷ ws) s =
    ground (arith, hand_over-holders ws (take (shift s ws w.mode) w.mode))

release-holders :
    (s : MutexState) (m : Mode)
    → Holds s m
    → let (t, woken) = release s m in
      (holders t + (if mode_is_exclusive m then 1 else 0) ≡ holders s + count is_exclusive woken)
      × (t.shared_held + (if mode_is_exclusive m then 0 else 1)
          ≡ s.shared_held + count is_shared woken)
unfolding release drop_holder
release-holders s exclusive h =
    ground (arith, hand_over-holders s.waiters (record s { exclusive_held = false }))
release-holders s shared h =
    ground (arith, hand_over-holders s.waiters (record s { shared_held = s.shared_held - 1 }))

pub finish-Inv : (w : World) (m : Mode) → 0 < running w m → Inv w → Inv (finish w m)
unfolding finish
finish-Inv w exclusive h i =
    let held : w.gate.exclusive_held ≡ true = ground (arith, i.exclusive_known) in
    let counts = release-holders w.gate exclusive held in
    record {
      valid = release-IsValid w.gate exclusive i.valid;
      exclusive_known = omega (arith, counts, i.exclusive_known);
      shared_known = omega (arith, counts, i.shared_known);
      in_order =
          append_assoc w.started _ _
          ∙ ap (λ l. w.started ++ l) (release_in_order w.gate exclusive)
          ∙ i.in_order;
    }
finish-Inv w shared h i =
    let counts = release-holders w.gate shared (omega (arith, i.shared_known)) in
    record {
      valid = release-IsValid w.gate shared i.valid;
      exclusive_known = omega (arith, counts, i.exclusive_known);
      shared_known = omega (arith, counts, i.shared_known);
      in_order =
          append_assoc w.started _ _
          ∙ ap (λ l. w.started ++ l) (release_in_order w.gate shared)
          ∙ i.in_order;
    }

-- What an arrival does to the holders and the queue, by its answer.
acquire_effect :
    (s : MutexState) (m : Mode) (ticket : ℕ)
    → let (t, answer) = acquire s m ticket in
      ((answer ≡ granted)
        × (s.waiters ≡ [])
        × (t.waiters ≡ [])
        × (holders t ≡ holders s + (if mode_is_exclusive m then 1 else 0))
        × (t.shared_held ≡ s.shared_held + (if mode_is_exclusive m then 0 else 1)))
      ⊎ ((answer ≡ queued)
          × (t.waiters ≡ s.waiters ++ (record { mode = m; ticket = ticket }) ∷ [])
          × (holders t ≡ holders s)
          × (t.shared_held ≡ s.shared_held))
      ⊎ ((answer ≡ depth_exceeded) × (t ≡ s))
unfolding acquire take admits
acquire_effect s exclusive ticket = ground arith
acquire_effect s shared ticket = ground arith

arrive-Inv : (w : World) (r : Waiter) → Inv w → Inv (arrive w r)
unfolding arrive
arrive-Inv w r i = elim (acquire_effect w.gate r.mode r.ticket) [
  | inl (e, empty, left, xs, sh) ↦ rw e (record {
    valid = acquire-IsValid w.gate r.mode r.ticket i.valid;
    exclusive_known = ground (arith, xs, i.exclusive_known);
    shared_known = ground (arith, sh, i.shared_known);
    in_order =
        let started_all : w.started ≡ w.accepted =
          (sym (append-nil w.started) ∙ ap (λ l. w.started ++ l) (sym empty)) ∙ i.in_order in
        rw (left, started_all) (append-nil _);
  })
  | inr (inl (e, q, xs, sh)) ↦ rw e (record {
    valid = acquire-IsValid w.gate r.mode r.ticket i.valid;
    exclusive_known = i.exclusive_known ∙ sym xs;
    shared_known = i.shared_known ∙ sym sh;
    in_order = rw (q, ← append_assoc, i.in_order);
  })
  | inr (inr (e, same)) ↦
      rw (e, same)
        (record {
          valid = i.valid;
          exclusive_known = i.exclusive_known;
          shared_known = i.shared_known;
          in_order = i.in_order;
        })
]

Step-Inv : {w u : World} → Step w u → Inv w → Inv u
Step-Inv (arrives w r) i = arrive-Inv w r i
Step-Inv (finishes w m h) i = finish-Inv w m h i

-- Whatever requests arrive and whichever functions end, in any order, the gate stays valid, knows
-- who runs, and has started the accepted requests in their order of arrival, the rest being queued.
pub Reach-Inv : {w : World} → Reach w → Inv w
Reach-Inv here = start-Inv
Reach-Inv (next r s) = Step-Inv s (Reach-Inv r)

-- In every world that arrivals and ends can reach, at most one exclusive function runs, and none runs
-- beside a shared one.
pub mutual_exclusion :
    {w : World}
    → Reach w
    → (w.exclusive_running ≤ 1) × ((w.exclusive_running ≡ 0) ⊎ (w.shared_running ≡ 0))
mutual_exclusion {w} r = ground (arith, Reach-Inv r)
