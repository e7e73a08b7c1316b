-- ===== src/Sync/Drain.antt =====
-- core/notesnook-sync-coordinator.ts: `requestSync`'s drain. What happens around it comes from the
-- outside: the clock's readings (`none` is an unreadable clock), the executor's responses (`none` is a
-- throw), the jitter, whether a sleep returns, and the calls that other code makes on the coordinator
-- at each `await`. A log keeps what the drain asks of the executor and of the sleep,
-- and the calls that are made at each wait.
pub mod Rule
pub mod Backoff
pub mod Attempts
pub mod Batch
pub mod Hold
pub mod Liveness
use nook_bridge.Common.{
  ℕ, zero, suc, ◌+◌, ◌-◌, ◌*◌, ◌/◌, ◌^◌, min, max, Bool, true, false, not, ◌&&◌, ◌||◌, Option, none,
  some, List, [], ◌∷◌, Text, codes, text_eq, leb, ltb, ◌==◌, if◌then◌else◌, length, keep, any,
}
use nook_bridge.Common.Js.{JsValue, JsFields, undefined, number, nat, string, property, text_of}
use nook_bridge.Sync.Types.{
  SyncPendingMarker, WriteError, invalid_input, sync_failed, Result, ok, err, ◌>>=◌, ◌>>◌, require,
  require_record, max_delay_ms,
}
use nook_bridge.Sync.Store.{SyncStore}
use nook_bridge.Sync.Queue.{
  Coordinator, install, record_local_commit, record_intent, record_create_intent,
  resolve_create_intent, release_intent,
}
use nook_bridge.Sync.Approvals.{approve_pending}

-- The integer options that the constructor checks.
pub record SyncOptions : Type 0 where
  pub max_attempts : ℕ
  pub base_delay_ms : ℕ
  pub retry_after_cap_ms : ℕ
  pub min_interval_ms : ℕ

-- `boundedOption`.
abbrev pub bounded_option : JsValue → ℕ → ℕ → ℕ → Result ℕ
bounded_option undefined fallback low high = ok fallback
bounded_option (number (nat n)) fallback low high =
    if leb low n && leb n high then ok n else err invalid_input
bounded_option _ fallback low high = err invalid_input

unfoldable pub read_options : JsFields → Result SyncOptions
read_options record_ = do
  max_attempts ← bounded_option (property (codes "maxAttempts") record_) 3 1 8
  base ← bounded_option (property (codes "baseDelayMs") record_) 100 0 max_delay_ms
  cap ← bounded_option (property (codes "retryAfterCapMs") record_) 30000 0 max_delay_ms
  min_interval ← bounded_option (property (codes "minIntervalMs") record_) 2000 0 max_delay_ms
  ok (record {
    max_attempts = max_attempts;
    base_delay_ms = base;
    retry_after_cap_ms = cap;
    min_interval_ms = min_interval;
  })

pub data SyncUploadPolicy : Type 0 where
  attributed allow : SyncUploadPolicy

pub record ExecutorRequest : Type 0 where
  pub pending : List SyncPendingMarker
  pub upload : Option SyncUploadPolicy

pub data ExecutorResult : Type 0 where
  confirmed failed refused : ExecutorResult
  retry : Option ℕ → ExecutorResult

-- `retryAfterMs`: absent, or a non-negative integer up to the greatest safe one.
abbrev retry_after : JsValue → Option ExecutorResult
retry_after undefined = some (retry none)
retry_after (number (nat n)) = if leb n 9007199254740991 then some (retry (some n)) else none
retry_after _ = none

abbrev is_reason : JsValue → Bool
is_reason (string s) = text_eq s (codes "unapproved_pending")
is_reason _ = false

abbrev with_status : JsFields → JsValue → Option ExecutorResult
with_status record_ (string s) =
    if text_eq s (codes "confirmed")
    then some confirmed
    else if text_eq s (codes "failed")
    then some failed
    else if text_eq s (codes "refused")
    then (if is_reason (property (codes "reason") record_) then some refused else none)
    else if text_eq s (codes "retry")
    then retry_after (property (codes "retryAfterMs") record_)
    else none
with_status record_ _ = none

abbrev of_record : Result JsFields → Option ExecutorResult
of_record (err e) = none
of_record (ok record_) = with_status record_ (property (codes "status") record_)

-- `none` is the throw of `sync_failed` on any other shape.
unfoldable pub parse_executor_result : JsValue → Option ExecutorResult
parse_executor_result value = of_record (require_record value)

-- A number in [0, 1), as a fraction.
pub record Jitter : Type 0 where
  pub over : ℕ
  pub under : ℕ

-- `backoffDelay`, in exact arithmetic: floor (raw * (0.75 + jitter * 0.5)).
unfoldable pub backoff_delay : ℕ → ℕ → Jitter → ℕ
backoff_delay base attempt j =
    let raw = min max_delay_ms (base * 2 ^ (attempt - 1)) in
    let with_jitter = raw * (3 * j.under + 2 * j.over) / (4 * j.under) in
    max base (min max_delay_ms with_jitter)

-- A call that other code makes on the coordinator while the drain waits.
pub data Call : Type 0 where
  commits intends create_intends approves : JsValue → Call
  resolves : SyncPendingMarker → Text → Call
  releases : SyncPendingMarker → Call

pub data Event : Type 0 where
  asks : ExecutorRequest → Event
  hears : List Call → Event
  sleeps : ℕ → Event

-- What comes from outside in one round of the attempts.
pub record Round : Type 0 where
  pub during_call : List Call
  pub response : Option JsValue
  pub jitter : Jitter
  pub during_sleep : List Call
  pub slept : Bool
  pub hold_clock : Option ℕ

pub record Outside : Type 0 where
  pub started_clock : Option ℕ
  pub gap_clock : Option ℕ
  pub during_gap : List Call
  pub gap_slept : Bool
  pub rounds : ℕ → Round
  pub end_clock : Option ℕ

pub data SyncStatus : Type 0 where
  synced sync_failed_status unapproved_pending : SyncStatus

pub record SyncCoordinatorResult : Type 0 where
  pub status : SyncStatus
  pub local_committed : Bool
  pub pending_sync : Bool
  pub attempts : ℕ
  pub started_at : ℕ

-- The coordinator afterwards, what was asked, and the promise's value or its rejection.
pub record Flight (S : Type 0) : Type 0 where
  pub coordinator : Coordinator S
  pub log : List Event
  pub result : Result SyncCoordinatorResult

abbrev pub some_pending : List SyncPendingMarker → Bool
some_pending [] = false
some_pending (m ∷ ms) = true

-- `#extendHold`: an unreadable clock leaves the hold.
abbrev pub extend_hold : {S : Type 0} → Coordinator S → Option ℕ → ℕ → Coordinator S
extend_hold c none hold = c
extend_hold c (some now) hold = record c { not_before = max c.not_before (now + hold) }

abbrev pub in_batch : List SyncPendingMarker → SyncPendingMarker → Bool
in_batch batch m = any (λ b. b.sequence == m.sequence) batch

module _ {S : Type 0} (store : SyncStore S) where
  abbrev pub run_call : Coordinator S → Call → Coordinator S
  run_call c (commits v) = (record_local_commit store c v).0
  run_call c (intends v) = (record_intent store c v).0
  run_call c (create_intends v) = (record_create_intent store c v).0
  run_call c (approves v) = (approve_pending store c v).0
  run_call c (resolves token id) = (resolve_create_intent store c token id).0
  run_call c (releases token) = (release_intent store c token).0

  unfoldable pub run_calls : Coordinator S → List Call → Coordinator S
  run_calls c [] = c
  run_calls c (call ∷ calls) = run_calls (run_call c call) calls

  -- `#removeBatch`.
  unfoldable pub remove_batch :
      Coordinator S → List SyncPendingMarker → Coordinator S × Result (Unit {0})
  remove_batch c batch =
      install store c (keep (λ m. not (in_batch batch m)) c.pending) c.next_sequence tt

  abbrev pub note : Event → Flight S → Flight S
  note e f = record f { log = e ∷ f.log }

  -- One drain: its options, what comes from outside, the batch, the policy and the start time.
  module _ (o : SyncOptions) (outside : Outside) (batch : List SyncPendingMarker)
      (upload : Option SyncUploadPolicy) (started : ℕ) where
    abbrev pub ended : Coordinator S → SyncStatus → ℕ → Flight S
    ended c status attempt = record {
      coordinator = c;
      log = [];
      result = ok (record {
        status = status;
        local_committed = some_pending batch;
        pending_sync = some_pending c.pending;
        attempts = attempt;
        started_at = started;
      });
    }

    -- `#wait`, then the next round or, if the sleep throws, the failure.
    abbrev pub pause : Coordinator S → Round → ℕ → ℕ → (Coordinator S → Flight S) → Flight S
    pause c r attempt delay rest =
        let c' = run_calls c r.during_sleep in
        note (sleeps delay) (
          note (hears r.during_sleep)
            (if r.slept then rest c' else ended c' sync_failed_status attempt))

    abbrev pub delay_of : Option ℕ → Round → ℕ → ℕ
    delay_of none r attempt = backoff_delay o.base_delay_ms attempt r.jitter
    delay_of (some after) r attempt = min after o.retry_after_cap_ms

    -- The hold that a Retry-After on the last attempt leaves.
    abbrev pub last_hold : Coordinator S → Option ℕ → Round → Coordinator S
    last_hold c none r = c
    last_hold c (some after) r = extend_hold c r.hold_clock (min after o.retry_after_cap_ms)

    abbrev pub confirm : Coordinator S × Result (Unit {0}) → ℕ → Flight S
    confirm (c, ok _) attempt = ended c synced attempt
    confirm (c, err e) attempt = ended c sync_failed_status attempt

    abbrev pub after_result :
        Coordinator S → Round → ℕ → (Coordinator S → Flight S) → Option ExecutorResult → Flight S
    after_result c r attempt rest none = record {
      coordinator = c;
      log = [];
      result = err sync_failed;
    }
    after_result c r attempt rest (some failed) = ended c sync_failed_status attempt
    after_result c r attempt rest (some refused) = ended c unapproved_pending attempt
    after_result c r attempt rest (some (retry after)) =
        if attempt == o.max_attempts
        then ended (last_hold c after r) sync_failed_status attempt
        else pause c r attempt (delay_of after r attempt) rest
    after_result c r attempt rest (some confirmed) = confirm (remove_batch c batch) attempt

    -- The executor's throw is retried as a `retry` without a hint.
    abbrev pub after_response :
        Coordinator S → Round → ℕ → (Coordinator S → Flight S) → Option JsValue → Flight S
    after_response c r attempt rest none =
        if attempt == o.max_attempts
        then ended c sync_failed_status attempt
        else pause c r attempt (delay_of none r attempt) rest
    after_response c r attempt rest (some value) =
        after_result c r attempt rest (parse_executor_result value)

    abbrev pub request : ExecutorRequest
    request = record { pending = batch; upload = upload }

    -- `#runAttempts`: the rounds left, and the number of the attempt.
    unfoldable pub run_attempts : ℕ → ℕ → Coordinator S → Flight S
    run_attempts zero attempt c = ended c sync_failed_status o.max_attempts
    run_attempts (suc left) attempt c =
        let r = outside.rounds attempt in
        note (asks request) (
          note (hears r.during_call) (
            after_response (run_calls c r.during_call) r attempt (run_attempts left (suc attempt))
              r.response))

    abbrev pub settle_flight : Flight S → Flight S
    settle_flight f = record f {
      coordinator = extend_hold f.coordinator outside.end_clock o.min_interval_ms;
    }

    abbrev pub attempts_from : Coordinator S → Flight S
    attempts_from c = run_attempts o.max_attempts 1 c

    abbrev pub after_gap : Coordinator S → Bool → Flight S
    after_gap c slept = if slept then attempts_from c else ended c sync_failed_status 1

    -- The `try` of `#drain`: the wait for the hold, then the attempts.
    abbrev pub within_hold : Coordinator S → Option ℕ → Flight S
    within_hold c none = record { coordinator = c; log = []; result = err sync_failed }
    within_hold c (some now) =
        if ltb now c.not_before
        then note (sleeps (c.not_before - now)) (
            note (hears outside.during_gap)
              (after_gap (run_calls c outside.during_gap) outside.gap_slept))
        else attempts_from c

  abbrev pub drain_started :
      SyncOptions → Outside → Coordinator S → Option SyncUploadPolicy → Option ℕ → Flight S
  drain_started o outside c upload none = record {
    coordinator = c;
    log = [];
    result = err sync_failed;
  }
  drain_started o outside c upload (some started) =
      settle_flight o outside c.pending upload started
        (within_hold o outside c.pending upload started c outside.gap_clock)

  -- `#drain`.
  unfoldable pub drain : SyncOptions → Outside → Coordinator S → Option SyncUploadPolicy → Flight S
  drain o outside c upload = drain_started o outside c upload outside.started_clock
