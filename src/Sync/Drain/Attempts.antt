-- ===== src/Sync/Drain/Attempts.antt =====
-- core/notesnook-sync-coordinator.ts: how often a drain asks the executor, for what, and how long it
-- sleeps.
use nook_bridge.Common.{
  ℕ, ◌-◌, ◌≤◌, ◌≡◌, refl, max, Option, none, some, List, All, count, Bool, true, false, arith,
}
use nook_bridge.Sync.Types.{SyncPendingMarker, Result, ok, err, max_delay_ms}
use nook_bridge.Sync.Store.{SyncStore}
use nook_bridge.Sync.Queue.{Coordinator}
use nook_bridge.Sync.Drain.{
  SyncOptions, SyncUploadPolicy, Event, asks, hears, sleeps, Outside, SyncCoordinatorResult, Flight,
  delay_of, remove_batch, within_hold, confirm, drain, drain_started,
}
use nook_bridge.Sync.Drain.Backoff.{backoff_delay-le}
use nook_bridge.Sync.Drain.Rule.{Anything, Rule, within_hold-W}

abbrev pub is_asking : Event → Bool
is_asking (asks r) = true
is_asking (sleeps d) = false
is_asking (hears calls) = false

-- The longest pause between two attempts.
abbrev pub longest_pause : SyncOptions → ℕ
longest_pause o = max (max o.base_delay_ms max_delay_ms) o.retry_after_cap_ms

-- What is left of the hold.
abbrev pub wait_of : ℕ → Option ℕ → ℕ
wait_of not_before none = 0
wait_of not_before (some now) = not_before - now

-- An event asks for this batch under this policy, or sleeps no longer than this.
abbrev pub IsPlanned : List SyncPendingMarker → Option SyncUploadPolicy → ℕ → Event → Type 0
IsPlanned batch upload longest (asks r) = (r.pending ≡ batch) × (r.upload ≡ upload)
IsPlanned batch upload longest (sleeps d) = d ≤ longest
IsPlanned batch upload longest (hears calls) = Unit

abbrev pub AtMost : ℕ → Result SyncCoordinatorResult → Type 0
AtMost n (ok r) = r.attempts ≤ n
AtMost n (err e) = Unit

abbrev Planned :
    {S : Type 0}
    → SyncOptions
    → List SyncPendingMarker
    → Option SyncUploadPolicy
    → ℕ
    → ℕ
    → Flight S
    → Type 0
Planned o batch upload longest left f =
    (count is_asking f.log ≤ left)
    × All (IsPlanned batch upload longest) f.log
    × AtMost o.max_attempts f.result

module _ {S : Type 0} (store : SyncStore S) (o : SyncOptions) (outside : Outside)
    (batch : List SyncPendingMarker) (upload : Option SyncUploadPolicy) (started : ℕ) where
  delay_of-le :
      (r : _) (after : Option ℕ) (attempt : ℕ)
      → delay_of store o outside batch upload started after r attempt ≤ longest_pause o
  delay_of-le r none attempt = omega (arith, backoff_delay-le o.base_delay_ms attempt r.jitter)
  delay_of-le r (some after) attempt = omega arith

  planning :
      (longest : ℕ)
      → longest_pause o ≤ longest
      → Rule store o outside batch upload started Anything (λ c. Planned o batch upload longest)
  planning longest h = record {
    keeps = λ c call _. tt;
    ends = λ left c status attempt _ _ le. (omega arith, tt, le);
    holds = λ left c now hold _. (omega arith, tt, omega arith);
    throws = λ left c _. (omega arith, tt, tt);
    confirms = λ left c attempt _ le. confirming left (remove_batch store c batch) attempt le;
    pauses = λ left c r after attempt f (few, plan, most).
        (few, (omega (arith, h, delay_of-le r after attempt), (tt, plan)), most);
    sends =
        λ left c calls f (few, plan, most). (omega (arith, few), ((refl, refl), (tt, plan)), most);
  }
    where
      confirming :
          (left : ℕ) (x : Coordinator S × Result (Unit {0})) (attempt : ℕ)
          → attempt ≤ o.max_attempts
          → Planned o batch upload longest left
              (confirm store o outside batch upload started x attempt)
      confirming left (c, ok _) attempt le = (omega arith, tt, le)
      confirming left (c, err e) attempt le = (omega arith, tt, le)

  within_hold-Planned :
      (c : Coordinator S) (gap : Option ℕ)
      → 1 ≤ o.max_attempts
      → Planned o batch upload
          (max (longest_pause o) (wait_of c.not_before gap))
          o.max_attempts
          (within_hold store o outside batch upload started c gap)
  within_hold-Planned c gap le =
      let longest = max (longest_pause o) (wait_of c.not_before gap) in
      within_hold-W store o outside batch upload started (planning longest (omega arith))
        (Planned o batch upload longest o.max_attempts) c gap tt le (λ f p. p)
        (λ now f e (few, plan, most). (few, (rw e (omega arith), (tt, plan)), most))

module _ {S : Type 0} (store : SyncStore S) (o : SyncOptions) (outside : Outside) where
  drain_started-Planned :
      (c : Coordinator S) (upload : Option SyncUploadPolicy) (clock : Option ℕ)
      → 1 ≤ o.max_attempts
      → Planned o c.pending upload
          (max (longest_pause o) (wait_of c.not_before outside.gap_clock))
          o.max_attempts
          (drain_started store o outside c upload clock)
  drain_started-Planned c upload none le = (omega arith, tt, tt)
  drain_started-Planned c upload (some started) le =
      within_hold-Planned store o outside c.pending upload started c outside.gap_clock le

  -- Whatever the executor answers and whatever the outside does meanwhile, a drain that may make one
  -- attempt or more asks the executor at most that often, always for the batch that was queued at its
  -- start and under the policy it was given, it reports no more attempts, and it sleeps no longer than
  -- the rest of the hold or the longest pause that its options allow.
  pub drain_plan :
      (c : Coordinator S) (upload : Option SyncUploadPolicy)
      → 1 ≤ o.max_attempts
      → let f = drain store o outside c upload in
        (count is_asking f.log ≤ o.max_attempts)
        × All
            (IsPlanned c.pending upload
              (max (longest_pause o) (wait_of c.not_before outside.gap_clock)))
            f.log
        × AtMost o.max_attempts f.result
  unfolding drain
  drain_plan c upload le = drain_started-Planned c upload outside.started_clock le
