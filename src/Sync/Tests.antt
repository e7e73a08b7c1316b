-- ===== src/Sync/Tests.antt =====
-- core/notesnook-sync-coordinator.ts and core/notesnook-sync-state-store.ts: the theorems on concrete
-- queues, stores and drains, and some runs.
use nook_bridge.Common.{
  ℕ, zero, suc, ◌+◌, ◌≤◌, ◌<◌, ◌≡◌, ◌⊎◌, refl, true, not, ◌&&◌, map, none, some, List, [], ◌∷◌,
  ◌++◌, All, Text, codes, text_eq, starts_with, length, count, keep, any, max, arith,
}
use nook_bridge.Common.Js.{JsValue, string, object, end, field, property, max_safe_integer}
use nook_bridge.Sync.Types.{
  create, append, update, mcp, operator, SyncPendingMarker, WriteError, ok, err, sync_failed, rank,
  blocks, parse_operation, parse_origin, valid_note_id, is_reserved_note_id, require_record,
}
use nook_bridge.Sync.Store.{MemoryState, memory_store, state_value, greatest}
use nook_bridge.Sync.Store.RoundTrip.{IsStorable}
use nook_bridge.Sync.Queue.{
  Coordinator, Request, new_marker, start, install, sticky_origin, record_local_commit,
  record_intent, record_create_intent, resolve_create_intent, release_intent, enqueue, parse_intent,
  parse_create_intent, after_commit, placeholder_id, same_target,
}
use nook_bridge.Sync.Queue.Bounds.{Fits, calls-Fits}
use nook_bridge.Sync.Queue.Origins.{note_rank, records-rank, commit_blocks}
use nook_bridge.Sync.Queue.Durable.{IsDurable, IsAtomic, calls-IsAtomic, start_resumes}
use nook_bridge.Sync.Queue.Intents.{Saves, resolve-record_create_intent}
use nook_bridge.Sync.Approvals.{approve_through, no_blocking, blocking_summary}
use nook_bridge.Sync.Approvals.Effect.{blocks_above, unapproved, approve_through_exact}
use nook_bridge.Sync.Approvals.Summary.{Counts, IsHighest, blocking_summary_exact}
use nook_bridge.Sync.PersistentStore.{Storage}
use nook_bridge.Sync.PersistentStore.Refusal.{persistent_store, persistent_approval_fails}
use nook_bridge.Sync.SingleFlight.{
  no_requests, request_sync, request_sync_joins, Reach, here, next, requests,
}
use nook_bridge.Sync.Drain.{
  SyncOptions, Jitter, intends, Round, Outside, parse_executor_result, run_calls, drain,
}
use nook_bridge.Sync.Drain.Attempts.{
  is_asking, longest_pause, wait_of, IsPlanned, AtMost, drain_plan,
}
use nook_bridge.Sync.Drain.Batch.{calls_in, Left, is_new, drain_leaves, drain_keeps_new}
use nook_bridge.Sync.Drain.Hold.{held_until, drain_hold}
use nook_bridge.Sync.Drain.Liveness.{AsksAgain, ConfirmsAt, SyncedAfter, drain_confirms}

abbrev edited : SyncPendingMarker
edited = new_marker append (codes "n1") 1 operator

abbrev made_here : SyncPendingMarker
made_here = new_marker update (codes "n2") 3 mcp

abbrev queue : List SyncPendingMarker
queue = edited ∷ made_here ∷ []

queue-IsStorable : All IsStorable queue
unfolding valid_note_id
queue-IsStorable = (
  record { named = refl; positive = omega arith; safe = omega arith },
  (record { named = refl; positive = omega arith; safe = omega arith }, tt),
)

abbrev coordinator : Coordinator MemoryState
coordinator = record {
  pending = queue;
  next_sequence = 4;
  not_before = 1000;
  store_state = some queue;
}

coordinator-Fits : Fits coordinator
coordinator-Fits = record { few = omega arith; ascending = omega arith }

memory-Saves : Saves memory_store
memory-Saves s ms = refl

abbrev intent : JsValue
intent = object (
    field (codes "operation") (string (codes "append")) (
      field (codes "noteId") (string (codes "n3"))
        (field (codes "origin") (string (codes "mcp")) end)))

abbrev token : SyncPendingMarker
token = new_marker append (codes "n3") 4 mcp

intent_recorded : (record_intent memory_store coordinator intent).1 ≡ ok token
unfolding record_intent parse_intent require_record parse_operation valid_note_id
    is_reserved_note_id parse_origin property text_eq starts_with enqueue install sticky_origin
intent_recorded = refl

calls-Fits_example :
    Fits (record_local_commit memory_store coordinator intent).0
    × Fits (record_intent memory_store coordinator intent).0
    × Fits (record_create_intent memory_store coordinator intent).0
    × Fits (resolve_create_intent memory_store coordinator token (codes "n4")).0
    × Fits (release_intent memory_store coordinator token).0
calls-Fits_example = calls-Fits memory_store coordinator intent token (codes "n4") coordinator-Fits

records-rank_example :
    (note_rank queue (codes "n1")
      ≤ note_rank (record_local_commit memory_store coordinator intent).0.pending (codes "n1"))
    × (note_rank queue (codes "n1")
        ≤ note_rank (record_intent memory_store coordinator intent).0.pending (codes "n1"))
    × (note_rank queue (codes "n1")
        ≤ note_rank (record_create_intent memory_store coordinator intent).0.pending (codes "n1"))
records-rank_example = records-rank memory_store (codes "n1") coordinator intent

abbrev request : Request
request = record { operation = append; note_id = codes "n1"; origin = mcp }

note_ranked : 0 < max (rank mcp) (note_rank queue (codes "n1"))
unfolding note_rank text_eq
note_ranked = omega arith

commit_blocks_example :
    any (λ m. blocks m && text_eq m.note_id (codes "n1")) (after_commit coordinator request) ≡ true
commit_blocks_example = commit_blocks coordinator request note_ranked

coordinator-IsDurable : IsDurable memory_store coordinator
coordinator-IsDurable = refl

calls-IsAtomic_example :
    IsAtomic memory_store coordinator (record_local_commit memory_store coordinator intent)
    × IsAtomic memory_store coordinator (record_intent memory_store coordinator intent)
    × IsAtomic memory_store coordinator (record_create_intent memory_store coordinator intent)
    × IsAtomic memory_store coordinator
        (resolve_create_intent memory_store coordinator token (codes "n4"))
    × IsAtomic memory_store coordinator (release_intent memory_store coordinator token)
calls-IsAtomic_example =
    calls-IsAtomic memory_store coordinator intent token (codes "n4") coordinator-IsDurable

queue_below : greatest queue < max_safe_integer
unfolding greatest
queue_below = omega arith

start_resumes_example :
    start memory_store (some queue)
    ≡ ok (record {
      pending = queue;
      next_sequence = greatest queue + 1;
      not_before = 0;
      store_state = some queue;
    })
start_resumes_example =
    start_resumes memory_store coordinator coordinator-IsDurable queue-IsStorable (omega arith)
      queue_below

abbrev creation : JsValue
creation = object (field (codes "origin") (string (codes "operator")) end)

abbrev creation_token : SyncPendingMarker
creation_token = new_marker create (placeholder_id 4) 4 operator

creation_recorded : (record_create_intent memory_store coordinator creation).1 ≡ ok creation_token
unfolding record_create_intent parse_create_intent require_record parse_origin property text_eq
    enqueue install
creation_recorded = refl

new_id_allowed : (valid_note_id (codes "n5") && not (is_reserved_note_id (codes "n5"))) ≡ true
unfolding valid_note_id is_reserved_note_id starts_with
new_id_allowed = refl

resolve-record_create_intent_example :
    let after =
      resolve_create_intent memory_store
        (record_create_intent memory_store coordinator creation).0
        creation_token
        (codes "n5") in
    (after.0.pending
      ≡ keep (λ m. not (same_target create (codes "n5") m)) queue
        ++ new_marker create
            (codes "n5")
            5
            (sticky_origin (queue ++ creation_token ∷ []) (codes "n5") operator)
          ∷ [])
    × (after.1 ≡ ok tt)
resolve-record_create_intent_example =
    resolve-record_create_intent memory_store memory-Saves coordinator creation creation_token
      (codes "n5") coordinator-Fits creation_recorded new_id_allowed

approve_through_exact_example :
    let (after, r) = approve_through memory_store coordinator 3 in
    ((after.pending ≡ queue) × ((e : WriteError) × (r ≡ err e)))
    ⊎ ((map unapproved after.pending ≡ map unapproved queue)
        × (keep blocks after.pending ≡ keep (blocks_above 3) queue)
        × ((n : ℕ) × (r ≡ ok (record { approved = n; through_sequence = 3 }))
            × (n + count blocks after.pending ≡ count blocks queue)))
approve_through_exact_example = approve_through_exact memory_store coordinator 3

blocking_summary_exact_example :
    Counts no_blocking (blocking_summary queue) queue
    × IsHighest (blocking_summary queue).highest_sequence queue
blocking_summary_exact_example = blocking_summary_exact queue

-- A key-value table of one entry.
abbrev table : Storage JsValue
table = record {
  write_sync = λ t v. (v, true);
  read_sync = λ t. some t;
  read-write = λ t v h. refl;
}

abbrev persistent : Coordinator JsValue
persistent = record {
  pending = queue;
  next_sequence = 4;
  not_before = 0;
  store_state = state_value queue;
}

queue_reaches : 1 ≤ greatest queue
unfolding greatest
queue_reaches = omega arith

persistent_approval_fails_example :
    let after = approve_through (persistent_store table) persistent 1 in
    (after.1 ≡ err sync_failed) × (after.0.pending ≡ queue)
persistent_approval_fails_example =
    persistent_approval_fails table persistent 1 queue_reaches (omega arith)

abbrev options : SyncOptions
options = record {
  max_attempts = 3;
  base_delay_ms = 100;
  retry_after_cap_ms = 30000;
  min_interval_ms = 2000;
}

abbrev half : Jitter
half = record { over = 1; under = 2 }

abbrev status : Text → JsValue
status s = object (field (codes "status") (string s) end)

-- The first answer is lost, and an intent is recorded meanwhile; the second one confirms.
abbrev rounds : ℕ → Round
rounds zero = record {
  during_call = [];
  response = none;
  jitter = half;
  during_sleep = [];
  slept = true;
  hold_clock = none;
}
rounds (suc zero) = record {
  during_call = intends intent ∷ [];
  response = none;
  jitter = half;
  during_sleep = [];
  slept = true;
  hold_clock = none;
}
rounds (suc (suc n)) = record {
  during_call = [];
  response = some (status (codes "confirmed"));
  jitter = half;
  during_sleep = [];
  slept = true;
  hold_clock = none;
}

abbrev outside : Outside
outside = record {
  started_clock = some 5000;
  gap_clock = some 5000;
  during_gap = [];
  gap_slept = true;
  rounds = rounds;
  end_clock = some 5200;
}

drain_plan_example :
    let f = drain memory_store options outside coordinator none in
    (count is_asking f.log ≤ 3)
    × All (IsPlanned queue none (max (longest_pause options) (wait_of 1000 (some 5000)))) f.log
    × AtMost 3 f.result
drain_plan_example = drain_plan memory_store options outside coordinator none (omega arith)

drain_leaves_example :
    Left memory_store queue coordinator (drain memory_store options outside coordinator none)
drain_leaves_example = drain_leaves memory_store options outside coordinator none (omega arith)

drain_keeps_new_example :
    let f = drain memory_store options outside coordinator none in
    keep (is_new 4) f.coordinator.pending
    ≡ keep (is_new 4) (run_calls memory_store coordinator (calls_in f.log)).pending
drain_keeps_new_example =
    drain_keeps_new memory_store options outside coordinator none (omega arith) coordinator-Fits

drain_hold_example :
    let f = drain memory_store options outside coordinator none in
    (1000 ≤ f.coordinator.not_before)
    × (held_until outside.started_clock outside.end_clock options.min_interval_ms
        ≤ f.coordinator.not_before)
drain_hold_example = drain_hold memory_store options outside coordinator none (omega arith)

confirms_at : ConfirmsAt outside 2
unfolding parse_executor_result require_record property text_eq
confirms_at = record { before = early; here = refl }
  where
    early :
        (n : ℕ) → n < 2 → AsksAgain (outside.rounds n).response × ((outside.rounds n).slept ≡ true)
    early zero h = (tt, refl)
    early (suc zero) h = (tt, refl)
    early (suc (suc n)) h = absurd (omega arith)

drain_confirms_example : SyncedAfter 2 (drain memory_store options outside coordinator none).result
drain_confirms_example =
    drain_confirms memory_store memory-Saves options outside coordinator none 2 5000 5000
      confirms_at (omega arith) (omega arith) refl refl (omega arith)

-- After one request a drain runs, and a second request joins it.
one_running : Reach (request_sync no_requests).0
one_running = next here (requests no_requests)

request_sync_joins_example :
    let s = (request_sync no_requests).0 in
    (length s.running ≤ 1) × ((request_sync s).1 ≡ 0) × ((request_sync s).0 ≡ s)
unfolding request_sync
request_sync_joins_example = request_sync_joins 0 one_running refl
