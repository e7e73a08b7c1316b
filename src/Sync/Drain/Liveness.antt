-- ===== src/Sync/Drain/Liveness.antt =====
-- core/notesnook-sync-coordinator.ts: a drain whose executor confirms in time.
use nook_bridge.Common.{
  ℕ, zero, suc, ◌+◌, ◌≤◌, ◌<◌, ◌≡◌, refl, Option, none, some, List, true, false, not, arith,
  Bool-cases, inl, inr, ltb, ◌==◌, keep,
}
use nook_bridge.Common.Js.{JsValue}
use nook_bridge.Sync.Types.{SyncPendingMarker, Result, ok, err}
use nook_bridge.Sync.Store.{SyncStore}
use nook_bridge.Sync.Queue.{Coordinator, install}
use nook_bridge.Sync.Drain.{
  SyncOptions, SyncUploadPolicy, confirmed, retry, parse_executor_result, Round, Outside, synced,
  SyncCoordinatorResult, Flight, in_batch, run_calls, remove_batch, confirm, run_attempts,
  after_response, drain,
}

-- The executor throws, or answers `retry`.
abbrev pub AsksAgain : Option JsValue → Type 0
AsksAgain none = Unit
AsksAgain (some v) = (after : Option ℕ) × (parse_executor_result v ≡ some (retry after))

-- The executor answers `confirmed`.
abbrev pub Confirms : Option JsValue → Type 0
Confirms none = ⊥
Confirms (some v) = parse_executor_result v ≡ some confirmed

abbrev pub SyncedAfter : ℕ → Result SyncCoordinatorResult → Type 0
SyncedAfter n (ok r) = (r.status ≡ synced) × (r.attempts ≡ n)
SyncedAfter n (err e) = ⊥

-- The first `k - 1` attempts are to be repeated, and the sleeps after them return; attempt `k` is
-- confirmed.
pub record ConfirmsAt (outside : Outside) (k : ℕ) : Type 0 where
  pub before :
      (n : ℕ) → n < k → AsksAgain (outside.rounds n).response × ((outside.rounds n).slept ≡ true)
  pub here : Confirms (outside.rounds k).response

module _ {S : Type 0} (store : SyncStore S)
    (saves : (s : S) (ms : List SyncPendingMarker) → (SyncStore.save store s ms).1 ≡ true)
    (o : SyncOptions) (outside : Outside) where
  module _ (batch : List SyncPendingMarker) (upload : Option SyncUploadPolicy) (started : ℕ) where
    confirm_synced :
        (c : Coordinator S) (n : ℕ)
        → SyncedAfter n
            (confirm store o outside batch upload started (remove_batch store c batch) n).result
    unfolding remove_batch install
    confirm_synced c n =
        rw (saves c.store_state (keep (λ m. not (in_batch batch m)) c.pending)) (refl, refl)

    here-synced :
        (c : Coordinator S) (r : Round) (n : ℕ) (rest : Coordinator S → Flight S)
        (response : Option JsValue)
        → Confirms response
        → SyncedAfter n
            (after_response store o outside batch upload started c r n rest response).result
    here-synced c r n rest none h = elim h [ ]
    here-synced c r n rest (some v) h = rw h (confirm_synced c n)

    again-synced :
        (c : Coordinator S) (r : Round) (attempt n : ℕ) (rest : Coordinator S → Flight S)
        (response : Option JsValue)
        → AsksAgain response
        → r.slept ≡ true
        → (attempt == o.max_attempts) ≡ false
        → ((c' : Coordinator S) → SyncedAfter n (rest c').result)
        → SyncedAfter n
            (after_response store o outside batch upload started c r attempt rest response).result
    again-synced c r attempt n rest none _ slept more h =
        rw (more, slept) (h (run_calls store c r.during_sleep))
    again-synced c r attempt n rest (some v) (after, e) slept more h =
        rw (e, more, slept) (h (run_calls store c r.during_sleep))

    run_attempts_synced :
        (k left attempt : ℕ) (c : Coordinator S)
        → ConfirmsAt outside k
        → left + attempt ≡ suc o.max_attempts
        → attempt ≤ k
        → k ≤ o.max_attempts
        → SyncedAfter k (run_attempts store o outside batch upload started left attempt c).result
    unfolding run_attempts
    run_attempts_synced k zero attempt c h sum low high = absurd (omega arith)
    run_attempts_synced k (suc left) attempt c h sum low high = elim (Bool-cases (ltb attempt k)) [
      | inl early ↦
          let (again, slept) = h.before attempt (ground arith) in
          again-synced _ (outside.rounds attempt) attempt k
            (run_attempts store o outside batch upload started left (suc attempt)) _ again slept
            (ground arith)
            (λ c'. run_attempts_synced k left (suc attempt) c' h (omega arith) (ground arith) high)
      | inr now ↦
          let same : k ≡ attempt = ground arith in
          rw same (
            here-synced _ (outside.rounds attempt) attempt
              (run_attempts store o outside batch upload started left (suc attempt)) _
              (rw (← same) h.here))
    ]

  -- If the clock can be read when a drain starts and no hold is left, the store always saves, the
  -- executor throws or answers `retry` up to some attempt within the limit and then `confirmed`, and the
  -- sleeps between them return, then the drain reports `synced` after that many attempts.
  pub drain_confirms :
      (c : Coordinator S) (upload : Option SyncUploadPolicy) (k started now : ℕ)
      → ConfirmsAt outside k
      → 1 ≤ k
      → k ≤ o.max_attempts
      → outside.started_clock ≡ some started
      → outside.gap_clock ≡ some now
      → c.not_before ≤ now
      → SyncedAfter k (drain store o outside c upload).result
  unfolding drain
  drain_confirms c upload k started now h low high e e' free =
      let early : ltb now c.not_before ≡ false = ground arith in
      simp (e, e', early)
        (run_attempts_synced c.pending upload started k o.max_attempts 1 c h (omega arith) low high)
