-- ===== src/Sync/Drain/Hold.antt =====
-- core/notesnook-sync-coordinator.ts: the hold before the next drain.
use nook_bridge.Common.{
  ℕ, ◌+◌, ◌≤◌, ◌≡◌, refl, Option, none, some, List, Text, not, ◌&&◌, arith, Bool-cases, inl, inr,
  leb, ltb, ◌==◌, length, keep, count,
}
use nook_bridge.Sync.Types.{
  SyncPendingMarker, SyncOperation, SyncOrigin, create, Result, ok, err, valid_note_id,
  is_reserved_note_id, max_pending_markers,
}
use nook_bridge.Sync.Store.{SyncStore, greatest}
use nook_bridge.Sync.Queue.{
  Coordinator, Request, install, attempt, record_local_commit, commit_request, record_intent,
  record_create_intent, resolve_create_intent, resolve_with, release_intent, enqueue, parse_commit,
  parse_intent, parse_create_intent, placeholder_id, split_placeholder, after_commit, matches_token,
}
use nook_bridge.Sync.Approvals.{approve_pending, approve_through, parse_approval, newly_approved}
use nook_bridge.Sync.Drain.{
  SyncOptions, SyncUploadPolicy, Call, commits, intends, create_intends, approves, resolves,
  releases, Outside, extend_hold, run_call, remove_batch, within_hold, confirm, Flight,
  drain_started, drain,
}
use nook_bridge.Sync.Drain.Rule.{Rule, within_hold-W}

-- The end of the hold that a drain between two clock readings sets; 0 where one of them threw.
abbrev pub held_until : Option ℕ → Option ℕ → ℕ → ℕ
held_until (some started) (some ended) interval = ended + interval
held_until _ _ interval = 0

module _ {S : Type 0} (store : SyncStore S) where
  install-not_before {ℓ} :
      {A : Type ℓ} (c : Coordinator S) (pending : List SyncPendingMarker) (next : ℕ) (a : A)
      → (install store c pending next a).0.not_before ≡ c.not_before
  unfolding install
  install-not_before c pending next a =
      elim (Bool-cases (SyncStore.save store c.store_state pending).1) [
        | inl saved ↦ rw saved refl
        | inr lost ↦ rw lost refl
      ]

  attempt-not_before {ℓ κ} :
      {A : Type ℓ} {B : Type κ} (c : Coordinator S) (r : Result A)
      (k : A → Coordinator S × Result B)
      → ((a : A) → (k a).0.not_before ≡ c.not_before)
      → (attempt store c r k).0.not_before ≡ c.not_before
  attempt-not_before c (ok a) k h = h a
  attempt-not_before c (err e) k h = refl

  enqueue-not_before :
      (c : Coordinator S) (operation : SyncOperation) (id : Text) (origin : SyncOrigin)
      → (enqueue store c operation id origin).0.not_before ≡ c.not_before
  unfolding enqueue
  enqueue-not_before c operation id origin =
      elim (Bool-cases (leb max_pending_markers (length c.pending))) [
        | inl full ↦ rw full refl
        | inr room ↦ rw room (install-not_before c _ _ _)
      ]

  commit_request-not_before :
      (c : Coordinator S) (r : Request) → (commit_request store c r).0.not_before ≡ c.not_before
  unfolding commit_request
  commit_request-not_before c r =
      elim (Bool-cases (ltb max_pending_markers (length (after_commit c r)))) [
        | inl full ↦ rw full refl
        | inr room ↦ rw room (install-not_before c _ _ _)
      ]

  resolve_with-not_before :
      (c : Coordinator S) (id : Text) (found : Option (SyncPendingMarker × List SyncPendingMarker))
      → (resolve_with store c id found).0.not_before ≡ c.not_before
  resolve_with-not_before c id none = refl
  resolve_with-not_before c id (some (p, others)) = install-not_before c _ _ tt

  approve_through-not_before :
      (c : Coordinator S) (through : ℕ)
      → (approve_through store c through).0.not_before ≡ c.not_before
  unfolding approve_through
  approve_through-not_before c through = elim (Bool-cases (ltb (greatest c.pending) through)) [
    | inl above ↦ rw above refl
    | inr fine ↦ elim (Bool-cases (ltb 0 (count (newly_approved through) c.pending))) [
      | inr nothing ↦ rw (fine, nothing) refl
      | inl something ↦ rw (fine, something) (install-not_before c _ _ _)
    ]
  ]

  resolve-not_before :
      (c : Coordinator S) (token : SyncPendingMarker) (id : Text)
      → (resolve_create_intent store c token id).0.not_before ≡ c.not_before
  unfolding resolve_create_intent
  resolve-not_before c token id =
      elim (Bool-cases (valid_note_id id && not (is_reserved_note_id id))) [
        | inl fine ↦ rw fine (resolve_with-not_before c id (split_placeholder token c.pending))
        | inr bad ↦ rw bad refl
      ]

  release-not_before :
      (c : Coordinator S) (token : SyncPendingMarker)
      → (release_intent store c token).0.not_before ≡ c.not_before
  unfolding release_intent
  release-not_before c token =
      elim (Bool-cases
        (length (keep (λ m. not (matches_token token m)) c.pending) == length c.pending)) [
          | inl same ↦ rw same refl
          | inr other ↦ rw other (install-not_before c _ c.next_sequence tt)
        ]

  run_call-not_before :
      (c : Coordinator S) (call : Call) → (run_call store c call).not_before ≡ c.not_before
  unfolding record_local_commit record_intent record_create_intent approve_pending
  run_call-not_before c (commits v) =
      attempt-not_before c (parse_commit v) _ (λ r. commit_request-not_before c r)
  run_call-not_before c (intends v) =
      attempt-not_before c (parse_intent v) _ (λ r. enqueue-not_before c r.operation r.note_id _)
  run_call-not_before c (create_intends v) =
      attempt-not_before c (parse_create_intent v) _
        (λ o. enqueue-not_before c create (placeholder_id c.next_sequence) o)
  run_call-not_before c (approves v) =
      attempt-not_before c (parse_approval v) _ (λ t. approve_through-not_before c t)
  run_call-not_before c (resolves token id) = resolve-not_before c token id
  run_call-not_before c (releases token) = release-not_before c token

  remove_batch-not_before :
      (c : Coordinator S) (batch : List SyncPendingMarker)
      → (remove_batch store c batch).0.not_before ≡ c.not_before
  unfolding remove_batch
  remove_batch-not_before c batch = install-not_before c _ c.next_sequence tt

  abbrev IsLater : ℕ → Coordinator S → Type 0
  IsLater low c = low ≤ c.not_before

  extend_hold-later :
      (c : Coordinator S) (clock : Option ℕ) (hold : ℕ)
      → c.not_before ≤ (extend_hold c clock hold).not_before
  extend_hold-later c none hold = omega arith
  extend_hold-later c (some now) hold = omega arith

  module _ (o : SyncOptions) (outside : Outside) (batch : List SyncPendingMarker)
      (upload : Option SyncUploadPolicy) (started : ℕ) where
    confirm-later :
        (low : ℕ) (x : Coordinator S × Result (Unit {0})) (attempt : ℕ)
        → low ≤ x.0.not_before
        → low ≤ (confirm store o outside batch upload started x attempt).coordinator.not_before
    confirm-later low (c, ok _) attempt h = h
    confirm-later low (c, err e) attempt h = h

    holding :
        (low : ℕ)
        → Rule store o outside batch upload started
            (IsLater low)
            (λ c left f. low ≤ f.coordinator.not_before)
    holding low = record {
      keeps = λ c call i. omega (arith, run_call-not_before c call);
      ends = λ left c status attempt i _ _. i;
      holds = λ left c now hold i. omega (arith, extend_hold-later c now hold);
      throws = λ left c i. i;
      confirms = λ left c attempt i _.
          confirm-later low (remove_batch store c batch) attempt
            (omega (arith, remove_batch-not_before c batch));
      pauses = λ left c r after attempt f h. h;
      sends = λ left c calls f h. h;
    }

    within_hold-later :
        (c : Coordinator S) (gap : Option ℕ)
        → 1 ≤ o.max_attempts
        → c.not_before
          ≤ (within_hold store o outside batch upload started c gap).coordinator.not_before
    within_hold-later c gap le =
        within_hold-W store o outside batch upload started (holding c.not_before)
          (λ f. c.not_before ≤ f.coordinator.not_before) c gap (omega arith) le (λ f h. h)
          (λ now f e h. h)

  settled-held :
      (o : SyncOptions) (outside : Outside) (c : Coordinator S) (upload : Option SyncUploadPolicy)
      (start_clock end_clock : Option ℕ) (f : Flight S)
      → c.not_before ≤ f.coordinator.not_before
      → let low : ℕ = (extend_hold f.coordinator end_clock o.min_interval_ms).not_before in
        (c.not_before ≤ low) × (held_until start_clock end_clock o.min_interval_ms ≤ low)
  settled-held o outside c upload none none f h = (h, omega arith)
  settled-held o outside c upload (some started) none f h = (h, omega arith)
  settled-held o outside c upload none (some ended) f h = (omega (arith, h), omega arith)
  settled-held o outside c upload (some started) (some ended) f h = (omega (arith, h), omega arith)

  -- A hold is never shortened by a drain that may make one attempt or more; and after one that could
  -- read its clocks at its start and at its end, the next drain has to wait for the minimal interval
  -- from the end of this one.
  pub drain_hold :
      (o : SyncOptions) (outside : Outside) (c : Coordinator S) (upload : Option SyncUploadPolicy)
      → 1 ≤ o.max_attempts
      → let f = drain store o outside c upload in
        (c.not_before ≤ f.coordinator.not_before)
        × (held_until outside.started_clock outside.end_clock o.min_interval_ms
            ≤ f.coordinator.not_before)
  unfolding drain
  drain_hold o outside c upload le =
      elim outside.started_clock
        as (λ clock.
          let low : ℕ = (drain_started store o outside c upload clock).coordinator.not_before in
          (c.not_before ≤ low) × (held_until clock outside.end_clock o.min_interval_ms ≤ low)) [
            | none ↦ (omega arith, omega arith)
            | some started ↦
                settled-held o outside c upload (some started) outside.end_clock
                  (within_hold store o outside c.pending upload started c outside.gap_clock)
                  (within_hold-later o outside c.pending upload started c outside.gap_clock le)
          ]
