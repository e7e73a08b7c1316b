-- ===== src/Sync/Drain/Batch.antt =====
-- core/notesnook-sync-coordinator.ts: the queue that a drain leaves.
use nook_bridge.Common.{
  ℕ, suc, ◌≤◌, ◌≡◌, refl, ap, ◌∙◌, Option, none, some, List, [], ◌∷◌, ◌++◌, keep, Bool, true, false,
  not, arith, Bool-cases, inl, inr, leb, if◌then◌else◌,
}
use nook_bridge.Common.Js.{undefined}
use nook_bridge.Sync.Types.{create, unknown, SyncPendingMarker, Result, ok, err, sync_failed}
use nook_bridge.Sync.Store.{SyncStore}
use nook_bridge.Sync.Queue.{Coordinator, install, new_marker}
use nook_bridge.Sync.Queue.Bounds.{
  Ascending, Ascending-below, IsQueue, IsQueue-keep, Fits, calls-Fits,
}
use nook_bridge.Sync.Approvals.Effect.{approve_pending-Fits}
use nook_bridge.Sync.Drain.{
  SyncOptions, SyncUploadPolicy, Call, commits, intends, create_intends, approves, resolves,
  releases, Outside, Event, hears, note, SyncStatus, synced, sync_failed_status,
  SyncCoordinatorResult, Flight, some_pending, extend_hold, in_batch, run_call, run_calls,
  remove_batch, within_hold, confirm, ended, drain, drain_started,
}
use nook_bridge.Sync.Drain.Rule.{
  Anything, IsUnsynced, sync_failed-IsUnsynced, thrown, Rule, within_hold-W,
}

abbrev is_synced_status : SyncStatus → Bool
is_synced_status synced = true
is_synced_status _ = false

abbrev pub is_synced : Result SyncCoordinatorResult → Bool
is_synced (ok r) = is_synced_status r.status
is_synced (err e) = false

-- A queue without the batch, when the batch was confirmed.
abbrev pub without_confirmed :
    Bool → List SyncPendingMarker → List SyncPendingMarker → List SyncPendingMarker
without_confirmed done batch pending =
    if done then keep (λ m. not (in_batch batch m)) pending else pending

-- The result says whether anything is left in the queue, and whether there was a batch.
abbrev pub Reports :
    List SyncPendingMarker → List SyncPendingMarker → Result SyncCoordinatorResult → Type 0
Reports batch left (err e) = e ≡ sync_failed
Reports batch left (ok r) =
    (r.pending_sync ≡ some_pending left) × (r.local_committed ≡ some_pending batch)

-- The calls that were made at the waits, in order.
abbrev pub calls_in : List Event → List Call
calls_in [] = []
calls_in (hears calls ∷ log) = calls ++ calls_in log
calls_in (e ∷ log) = calls_in log

abbrev is_hearing : Event → Bool
is_hearing (hears calls) = true
is_hearing e = false

module _ {S : Type 0} (store : SyncStore S) where
  run_calls-append :
      (c : Coordinator S) (xs ys : List Call)
      → run_calls store c (xs ++ ys) ≡ run_calls store (run_calls store c xs) ys
  unfolding run_calls
  run_calls-append c [] ys = refl
  run_calls-append c (x ∷ xs) ys = run_calls-append (run_call store c x) xs ys

  run_call-Fits : (c : Coordinator S) (call : Call) → Fits c → Fits (run_call store c call)
  run_call-Fits c call f = elim call as (λ k. Fits (run_call store c k)) [
    | commits v ↦ (calls-Fits store c v (new_marker create [] 0 unknown) [] f).0
    | intends v ↦ (calls-Fits store c v (new_marker create [] 0 unknown) [] f).1
    | create_intends v ↦ (calls-Fits store c v (new_marker create [] 0 unknown) [] f).2
    | approves v ↦ approve_pending-Fits store c v f
    | resolves token id ↦ (calls-Fits store c undefined token id f).3
    | releases token ↦ (calls-Fits store c undefined token [] f).4
  ]

  run_calls-Fits : (c : Coordinator S) (calls : List Call) → Fits c → Fits (run_calls store c calls)
  unfolding run_calls
  run_calls-Fits c [] f = f
  run_calls-Fits c (call ∷ calls) f =
      run_calls-Fits (run_call store c call) calls (run_call-Fits c call f)

  -- What the calls in its log make of the queue, less the batch if it was confirmed.
  pub record Left (batch : List SyncPendingMarker) (start : Coordinator S) (f : Flight S)
      : Type 0 where
    pub queue :
        f.coordinator.pending
        ≡ without_confirmed
            (is_synced f.result)
            batch
            (run_calls store start (calls_in f.log)).pending
    pub sequence :
        f.coordinator.next_sequence ≡ (run_calls store start (calls_in f.log)).next_sequence
    pub report : Reports batch f.coordinator.pending f.result

  -- A flight that leaves the queue as it found it.
  Left-plain :
      (c : Coordinator S) (batch : List SyncPendingMarker) (f : Flight S)
      → f.log ≡ []
      → f.coordinator.pending ≡ c.pending
      → f.coordinator.next_sequence ≡ c.next_sequence
      → is_synced f.result ≡ false
      → Reports batch f.coordinator.pending f.result
      → Left batch c f
  unfolding run_calls
  Left-plain c batch f quiet queue sequence unsynced report = record {
    queue = rw (unsynced, quiet) queue;
    sequence = rw quiet sequence;
    report = report;
  }

  -- An event in which no calls are made, and a wait with its calls.
  Left-note :
      (c : Coordinator S) (batch : List SyncPendingMarker) (f : Flight S) (e : Event)
      (calls : List Call)
      → is_hearing e ≡ false
      → Left batch (run_calls store c calls) f
      → Left batch c (note store e (note store (hears calls) f))
  Left-note c batch f e calls silent l =
      let all_ = run_calls-append c calls (calls_in f.log) in
      let same : calls_in (e ∷ hears calls ∷ f.log) ≡ calls ++ calls_in f.log = ground arith in
      record {
        queue = rw (same, all_) l.queue;
        sequence = rw (same, all_) l.sequence;
        report = l.report;
      }

  unsynced_status : (status : SyncStatus) → IsUnsynced status → is_synced_status status ≡ false
  unsynced_status synced h = absurd (h refl)
  unsynced_status _ h = refl

  module _ (o : SyncOptions) (outside : Outside) (batch : List SyncPendingMarker)
      (upload : Option SyncUploadPolicy) (started : ℕ) where
    Left-held :
        (c : Coordinator S) (clock : Option ℕ) (hold : ℕ) (status : SyncStatus) (attempt : ℕ)
        → IsUnsynced status
        → Left batch c
            (ended store o outside batch upload started (extend_hold c clock hold) status attempt)
    Left-held c none hold status attempt h =
        Left-plain c batch _ refl refl refl (unsynced_status status h) (refl, refl)
    Left-held c (some now) hold status attempt h =
        Left-plain c batch _ refl refl refl (unsynced_status status h) (refl, refl)

    Left-confirm :
        (c : Coordinator S) (attempt : ℕ)
        → Left batch c
            (confirm store o outside batch upload started (remove_batch store c batch) attempt)
    unfolding remove_batch install run_calls
    Left-confirm c attempt =
        elim (Bool-cases
          (SyncStore.save store c.store_state (keep (λ m. not (in_batch batch m)) c.pending)).1) [
            | inl saved ↦ rw saved (record { queue = refl; sequence = refl; report = (refl, refl) })
            | inr lost ↦ rw lost (record { queue = refl; sequence = refl; report = (refl, refl) })
          ]

    leaving : Rule store o outside batch upload started Anything (λ c left. Left batch c)
    leaving = record {
      keeps = λ c call _. tt;
      ends = λ left c status attempt _ h _. Left-held c none 0 status attempt h;
      holds = λ left c now hold _.
          Left-held c now hold sync_failed_status o.max_attempts sync_failed-IsUnsynced;
      throws = λ left c _. Left-plain c batch (thrown c) refl refl refl refl refl;
      confirms = λ left c attempt _ _. Left-confirm c attempt;
      pauses = λ left c r after attempt f l. Left-note c batch f _ r.during_sleep refl l;
      sends = λ left c calls f l. Left-note c batch f _ calls refl l;
    }

    within_hold-Left :
        (c : Coordinator S) (gap : Option ℕ)
        → 1 ≤ o.max_attempts
        → Left batch c (within_hold store o outside batch upload started c gap)
    within_hold-Left c gap le =
        within_hold-W store o outside batch upload started leaving (Left batch c) c gap tt le
          (λ f l. l) (λ now f e l. Left-note c batch f _ outside.during_gap refl l)

    Left-settled :
        (c : Coordinator S) (f : Flight S) (clock : Option ℕ)
        → Left batch c f
        → Left batch c
            (record f { coordinator = extend_hold f.coordinator clock o.min_interval_ms })
    Left-settled c f none l = l
    Left-settled c f (some now) l = record {
      queue = l.queue;
      sequence = l.sequence;
      report = l.report;
    }

  drain_started-Left :
      (o : SyncOptions) (outside : Outside) (c : Coordinator S) (upload : Option SyncUploadPolicy)
      (clock : Option ℕ)
      → 1 ≤ o.max_attempts
      → Left c.pending c (drain_started store o outside c upload clock)
  drain_started-Left o outside c upload none le =
      Left-plain c c.pending (thrown c) refl refl refl refl refl
  drain_started-Left o outside c upload (some started) le =
      Left-settled o outside c.pending upload started c _ outside.end_clock
        (within_hold-Left o outside c.pending upload started c outside.gap_clock le)

  -- Whatever the executor answers, a drain that may make one attempt or more leaves the queue that the
  -- calls made at its waits, all of them in order, make of the queue at its start, less the batch it
  -- started with exactly when it reports `synced`. If it does not throw, it reports `pendingSync` exactly
  -- when the queue it leaves is not empty, and `localCommitted` exactly when there was a batch.
  pub drain_leaves :
      (o : SyncOptions) (outside : Outside) (c : Coordinator S) (upload : Option SyncUploadPolicy)
      → 1 ≤ o.max_attempts
      → Left c.pending c (drain store o outside c upload)
  unfolding drain
  drain_leaves o outside c upload le =
      drain_started-Left o outside c upload outside.started_clock le

  without_confirmed-IsQueue :
      (done : Bool) (batch ms : List SyncPendingMarker) (next : ℕ)
      → IsQueue ms next
      → IsQueue (without_confirmed done batch ms) next
  without_confirmed-IsQueue true batch ms next q =
      IsQueue-keep (λ m. not (in_batch batch m)) ms next q
  without_confirmed-IsQueue false batch ms next q = q

  -- A drain that may make one attempt or more keeps at most 64 markers with rising sequences.
  pub drain-Fits :
      (o : SyncOptions) (outside : Outside) (c : Coordinator S) (upload : Option SyncUploadPolicy)
      → 1 ≤ o.max_attempts
      → Fits c
      → Fits (drain store o outside c upload).coordinator
  drain-Fits o outside c upload le f =
      let l = drain_leaves o outside c upload le in
      rw (l.queue, l.sequence)
        (without_confirmed-IsQueue (is_synced (drain store o outside c upload).result) c.pending _ _
          (run_calls-Fits c (calls_in (drain store o outside c upload).log) f))

-- A marker recorded after the drain began.
abbrev pub is_new : ℕ → SyncPendingMarker → Bool
is_new next m = leb next m.sequence

in_batch_of_new :
    (low : ℕ) (batch : List SyncPendingMarker) (next : ℕ) (m : SyncPendingMarker)
    → Ascending low batch next
    → next ≤ m.sequence
    → in_batch batch m ≡ false
in_batch_of_new low [] next m a h = refl
in_batch_of_new low (b ∷ batch) next m (le, a) h = ground (
  arith,
  in_batch_of_new (suc b.sequence) batch next m a h,
  Ascending-below (suc b.sequence) batch next a,
)

keep_new-without_confirmed :
    (done : Bool) (batch ms : List SyncPendingMarker) (next : ℕ)
    → Ascending 1 batch next
    → keep (is_new next) (without_confirmed done batch ms) ≡ keep (is_new next) ms
keep_new-without_confirmed false batch ms next a = refl
keep_new-without_confirmed true batch [] next a = refl
keep_new-without_confirmed true batch (m ∷ ms) next a = elim (Bool-cases (is_new next m)) [
  | inl new ↦
      rw (in_batch_of_new 1 batch next m a (ground arith), new)
        (ap (λ rest. m ∷ rest) (keep_new-without_confirmed true batch ms next a))
  | inr old ↦ ground (arith, keep_new-without_confirmed true batch ms next a)
]

-- A drain of a queue in order that may make one attempt or more, even one that confirms its batch,
-- leaves of the markers with a sequence from its start on all that the calls made at its waits leave of
-- them.
pub drain_keeps_new :
    {S : Type 0}
    → (store : SyncStore S) (o : SyncOptions) (outside : Outside) (c : Coordinator S)
      (upload : Option SyncUploadPolicy)
    → 1 ≤ o.max_attempts
    → Fits c
    → let f = drain store o outside c upload in
      keep (is_new c.next_sequence) f.coordinator.pending
      ≡ keep (is_new c.next_sequence) (run_calls store c (calls_in f.log)).pending
drain_keeps_new store o outside c upload le f =
    let l = drain_leaves store o outside c upload le in
    ap (keep (is_new c.next_sequence)) l.queue
    ∙ keep_new-without_confirmed (is_synced (drain store o outside c upload).result) c.pending _
        c.next_sequence f.ascending
