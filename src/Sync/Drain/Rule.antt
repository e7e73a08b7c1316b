-- ===== src/Sync/Drain/Rule.antt =====
-- core/notesnook-sync-coordinator.ts: the rule of proof for the attempts of a drain: what each way out
-- of a round has to establish.
use nook_bridge.Common.{
  ℕ, zero, suc, ◌+◌, ◌≤◌, ◌≡◌, ◌≢◌, refl, Bool, true, false, ltb, ◌-◌, Option, none, some, List, [],
  ◌∷◌, arith, ◌==◌, Bool-cases, inl, inr,
}
use nook_bridge.Common.Js.{JsValue}
use nook_bridge.Sync.Types.{SyncPendingMarker, sync_failed, err}
use nook_bridge.Sync.Store.{SyncStore}
use nook_bridge.Sync.Queue.{Coordinator}
use nook_bridge.Sync.Drain.{
  SyncOptions, SyncUploadPolicy, ExecutorResult, confirmed, failed, refused, retry,
  parse_executor_result, Call, asks, hears, sleeps, Round, Outside, SyncStatus, synced,
  sync_failed_status, unapproved_pending, Flight, extend_hold, run_call, run_calls, remove_batch,
  note, ended, pause, delay_of, last_hold, confirm, after_result, after_response, request,
  run_attempts, attempts_from, after_gap, within_hold,
}

abbrev pub IsUnsynced : SyncStatus → Type 0
IsUnsynced s = s ≢ synced

pub sync_failed-IsUnsynced : IsUnsynced sync_failed_status
sync_failed-IsUnsynced e = ground arith

pub unapproved-IsUnsynced : IsUnsynced unapproved_pending
unapproved-IsUnsynced e = ground arith

abbrev pub thrown : {S : Type 0} → Coordinator S → Flight S
thrown c = record { coordinator = c; log = []; result = err sync_failed }

abbrev pub Anything : {A : Type 0} → A → Type 0
Anything x = Unit

module _ {S : Type 0} (store : SyncStore S) (o : SyncOptions) (outside : Outside)
    (batch : List SyncPendingMarker) (upload : Option SyncUploadPolicy) (started : ℕ) where
  -- `I` holds of every coordinator on the way, and `P c left` of what comes out of the coordinator `c`
  -- with `left` rounds to go.
  pub record Rule (I : Coordinator S → Type 0) (P : Coordinator S → ℕ → Flight S → Type 0)
      : Type 0 where
    pub keeps : (c : Coordinator S) (call : Call) → I c → I (run_call store c call)
    pub ends :
        (left : ℕ) (c : Coordinator S) (status : SyncStatus) (attempt : ℕ)
        → I c
        → IsUnsynced status
        → attempt ≤ o.max_attempts
        → P c left (ended store o outside batch upload started c status attempt)
    pub holds :
        (left : ℕ) (c : Coordinator S) (now : Option ℕ) (hold : ℕ)
        → I c
        → P c left (
            ended store o outside batch upload started
              (extend_hold c now hold)
              sync_failed_status
              o.max_attempts)
    pub throws : (left : ℕ) (c : Coordinator S) → I c → P c left (thrown c)
    pub confirms :
        (left : ℕ) (c : Coordinator S) (attempt : ℕ)
        → I c
        → attempt ≤ o.max_attempts
        → P c left
            (confirm store o outside batch upload started (remove_batch store c batch) attempt)
    pub pauses :
        (left : ℕ) (c : Coordinator S) (r : Round) (after : Option ℕ) (attempt : ℕ) (f : Flight S)
        → P (run_calls store c r.during_sleep) left f
        → P c left (
            note store
              (sleeps (delay_of store o outside batch upload started after r attempt))
              (note store (hears r.during_sleep) f))
    pub sends :
        (left : ℕ) (c : Coordinator S) (calls : List Call) (f : Flight S)
        → P (run_calls store c calls) left f
        → P c (suc left) (
            note store
              (asks (request store o outside batch upload started))
              (note store (hears calls) f))

  module _ {I : Coordinator S → Type 0} {P : Coordinator S → ℕ → Flight S → Type 0}
      (rule : Rule I P) where
    pub calls-keep : (c : Coordinator S) (calls : List Call) → I c → I (run_calls store c calls)
    unfolding run_calls
    calls-keep c [] i = i
    calls-keep c (call ∷ calls) i = calls-keep (run_call store c call) calls (rule.keeps c call i)

    pause-P :
        (left : ℕ) (c : Coordinator S) (r : Round) (after : Option ℕ) (attempt : ℕ)
        (rest : Coordinator S → Flight S)
        → I c
        → attempt ≤ o.max_attempts
        → ((c : Coordinator S) → I c → P c left (rest c))
        → P c left (
            pause store o outside batch upload started c r attempt
              (delay_of store o outside batch upload started after r attempt)
              rest)
    pause-P left c r after attempt rest i le h =
        let i' = calls-keep c r.during_sleep i in
        rule.pauses left c r after attempt _ (elim (Bool-cases r.slept) [
          | inl slept ↦ rw slept (h (run_calls store c r.during_sleep) i')
          | inr broken ↦ rw broken (
              rule.ends left (run_calls store c r.during_sleep) sync_failed_status attempt i'
                sync_failed-IsUnsynced le)
        ])

    last_hold-P :
        (left : ℕ) (c : Coordinator S) (after : Option ℕ) (r : Round)
        → I c
        → P c left (
            ended store o outside batch upload started
              (last_hold store o outside batch upload started c after r)
              sync_failed_status
              o.max_attempts)
    last_hold-P left c none r i =
        rule.ends left c sync_failed_status o.max_attempts i sync_failed-IsUnsynced (omega arith)
    last_hold-P left c (some after) r i = rule.holds left c r.hold_clock _ i

    retry-P :
        (left : ℕ) (c : Coordinator S) (r : Round) (after : Option ℕ) (attempt : ℕ)
        (rest : Coordinator S → Flight S)
        → I c
        → attempt ≤ o.max_attempts
        → ((c : Coordinator S) → I c → P c left (rest c))
        → P c left (
            after_result store o outside batch upload started c r attempt rest (some (retry after)))
    retry-P left c r after attempt rest i le h = elim (Bool-cases (attempt == o.max_attempts)) [
      | inl last ↦
          let same : attempt ≡ o.max_attempts = ground arith in
          rw (last, same) (last_hold-P left c after r i)
      | inr more ↦ rw more (pause-P left c r after attempt rest i le h)
    ]

    no_answer-P :
        (left : ℕ) (c : Coordinator S) (r : Round) (attempt : ℕ) (rest : Coordinator S → Flight S)
        → I c
        → attempt ≤ o.max_attempts
        → ((c : Coordinator S) → I c → P c left (rest c))
        → P c left (after_response store o outside batch upload started c r attempt rest none)
    no_answer-P left c r attempt rest i le h = elim (Bool-cases (attempt == o.max_attempts)) [
      | inl last ↦ rw last (rule.ends left c sync_failed_status attempt i sync_failed-IsUnsynced le)
      | inr more ↦ rw more (pause-P left c r none attempt rest i le h)
    ]

    answer-P :
        (left : ℕ) (c : Coordinator S) (r : Round) (attempt : ℕ) (rest : Coordinator S → Flight S)
        → I c
        → attempt ≤ o.max_attempts
        → ((c : Coordinator S) → I c → P c left (rest c))
        → (answer : Option ExecutorResult)
        → P c left (after_result store o outside batch upload started c r attempt rest answer)
    answer-P left c r attempt rest i le h none = rule.throws left c i
    answer-P left c r attempt rest i le h (some failed) =
        rule.ends left c sync_failed_status attempt i sync_failed-IsUnsynced le
    answer-P left c r attempt rest i le h (some refused) =
        rule.ends left c unapproved_pending attempt i unapproved-IsUnsynced le
    answer-P left c r attempt rest i le h (some confirmed) = rule.confirms left c attempt i le
    answer-P left c r attempt rest i le h (some (retry after)) =
        retry-P left c r after attempt rest i le h

    response-P :
        (left : ℕ) (c : Coordinator S) (r : Round) (attempt : ℕ) (rest : Coordinator S → Flight S)
        → I c
        → attempt ≤ o.max_attempts
        → ((c : Coordinator S) → I c → P c left (rest c))
        → (response : Option JsValue)
        → P c left (after_response store o outside batch upload started c r attempt rest response)
    response-P left c r attempt rest i le h none = no_answer-P left c r attempt rest i le h
    response-P left c r attempt rest i le h (some value) =
        answer-P left c r attempt rest i le h (parse_executor_result value)

    -- What the rule asks for at each way out holds of the attempts as a whole.
    pub run_attempts-P :
        (left attempt : ℕ) (c : Coordinator S)
        → I c
        → left + attempt ≤ suc o.max_attempts
        → P c left (run_attempts store o outside batch upload started left attempt c)
    unfolding run_attempts
    run_attempts-P zero attempt c i le =
        rule.ends zero c sync_failed_status o.max_attempts i sync_failed-IsUnsynced (omega arith)
    run_attempts-P (suc left) attempt c i le =
        let r = outside.rounds attempt in
        let i' = calls-keep c r.during_call i in
        rule.sends left c r.during_call _ (
          response-P left (run_calls store c r.during_call) r attempt _ i' (omega arith)
            (λ c' i''. run_attempts-P left (suc attempt) c' i'' (omega arith)) r.response)

    pub attempts_from-P :
        (c : Coordinator S)
        → I c
        → P c o.max_attempts (attempts_from store o outside batch upload started c)
    attempts_from-P c i = run_attempts-P o.max_attempts 1 c i (omega arith)

    after_gap-P :
        (c : Coordinator S) (slept : Bool)
        → I c
        → 1 ≤ o.max_attempts
        → P c o.max_attempts (after_gap store o outside batch upload started c slept)
    after_gap-P c true i le = attempts_from-P c i
    after_gap-P c false i le =
        rule.ends o.max_attempts c sync_failed_status 1 i sync_failed-IsUnsynced le

    -- The wait for the hold, added to the rule: `W` of the flight with the wait.
    pub within_hold-W :
        (W : Flight S → Type 0) (c : Coordinator S) (gap : Option ℕ)
        → I c
        → 1 ≤ o.max_attempts
        → ((f : Flight S) → P c o.max_attempts f → W f)
        → ((now : ℕ) (f : Flight S)
            → gap ≡ some now
            → P (run_calls store c outside.during_gap) o.max_attempts f
            → W (
                note store (sleeps (c.not_before - now)) (note store (hears outside.during_gap) f)))
        → W (within_hold store o outside batch upload started c gap)
    within_hold-W W c none i le direct waited = direct (thrown c) (rule.throws o.max_attempts c i)
    within_hold-W W c (some now) i le direct waited = elim (Bool-cases (ltb now c.not_before)) [
      | inr free ↦ rw free (direct _ (attempts_from-P c i))
      | inl early ↦
          let i' = calls-keep c outside.during_gap i in
          rw early (
            waited now _ refl
              (after_gap-P (run_calls store c outside.during_gap) outside.gap_slept i' le))
    ]
