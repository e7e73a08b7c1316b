-- ===== src/Sync/Queue/Durable.antt =====
-- core/notesnook-sync-coordinator.ts: the store agrees with the queue, and a restart finds it.
use nook_bridge.Common.{
  ℕ, suc, ◌+◌, ◌≤◌, ◌<◌, ◌≡◌, refl, false, not, ◌&&◌, Option, none, some, List, arith, leb, ltb,
  ◌==◌, length, keep, Bool-cases, inl, inr, ◌⊎◌, Text, All,
}
use nook_bridge.Common.Js.{JsValue, max_safe_integer}
use nook_bridge.Sync.Types.{
  SyncPendingMarker, SyncOperation, create, SyncOrigin, Result, ok, err, max_pending_markers,
  WriteError, invalid_input, sync_required, sync_failed, valid_note_id, is_reserved_note_id,
}
use nook_bridge.Sync.Store.{SyncStore, state_value, greatest, next_sequence_of, loaded_state}
use nook_bridge.Sync.Store.RoundTrip.{IsStorable, validate_state-value}
use nook_bridge.Sync.Queue.{
  Coordinator, Request, start, install, attempt, commit_request, record_local_commit, enqueue,
  record_intent, record_create_intent, after_commit, resolve_create_intent, resolve_with,
  split_placeholder, release_intent, matches_token, parse_commit, parse_intent, parse_create_intent,
  placeholder_id,
}

module _ {S : Type 0} (store : SyncStore S) where
  -- What the store would load is the queue.
  abbrev pub IsDurable : Coordinator S → Type 0
  IsDurable c = SyncStore.load store c.store_state ≡ some (state_value c.pending)

  -- A call either throws and leaves the queue, or leaves store and queue in agreement.
  abbrev pub IsAtomic {ℓ} : {A : Type ℓ} → Coordinator S → Coordinator S × Result A → Type ℓ
  IsAtomic c (c', r) =
      ((e : WriteError) × (r ≡ err e)
        × (c'.pending ≡ c.pending)
        × (c'.next_sequence ≡ c.next_sequence))
      ⊎ IsDurable c'

  pub install-IsAtomic {ℓ} :
      {A : Type ℓ} (c : Coordinator S) (pending : List SyncPendingMarker) (next : ℕ) (a : A)
      → IsAtomic c (install store c pending next a)
  unfolding install
  install-IsAtomic c pending next a =
      elim (Bool-cases (SyncStore.save store c.store_state pending).1) [
        | inl saved ↦ rw saved (inr (SyncStore.load-save store c.store_state pending saved))
        | inr lost ↦ rw lost (inl (sync_failed, refl, refl, refl))
      ]

  attempt-IsAtomic {ℓ κ} :
      {A : Type ℓ} {B : Type κ} (c : Coordinator S) (r : Result A)
      (k : A → Coordinator S × Result B)
      → ((a : A) → IsAtomic c (k a))
      → IsAtomic c (attempt store c r k)
  attempt-IsAtomic c (ok a) k h = h a
  attempt-IsAtomic c (err e) k h = inl (e, refl, refl, refl)

  commit_request-IsAtomic :
      (c : Coordinator S) (r : Request) → IsAtomic c (commit_request store c r)
  unfolding commit_request
  commit_request-IsAtomic c r =
      elim (Bool-cases (ltb max_pending_markers (length (after_commit c r)))) [
        | inl full ↦ rw full (inl (invalid_input, refl, refl, refl))
        | inr room ↦ rw room (install-IsAtomic c (after_commit c r) (suc c.next_sequence) r)
      ]

  enqueue-IsAtomic :
      (c : Coordinator S) (operation : SyncOperation) (id : Text) (origin : SyncOrigin)
      → IsAtomic c (enqueue store c operation id origin)
  unfolding enqueue
  enqueue-IsAtomic c operation id origin =
      elim (Bool-cases (leb max_pending_markers (length c.pending))) [
        | inl full ↦ rw full (inl (sync_required, refl, refl, refl))
        | inr room ↦ rw room (install-IsAtomic c _ _ _)
      ]

  resolve_with-IsAtomic :
      (c : Coordinator S) (id : Text) (found : Option (SyncPendingMarker × List SyncPendingMarker))
      → IsDurable c
      → IsAtomic c (resolve_with store c id found)
  resolve_with-IsAtomic c id none d = inr d
  resolve_with-IsAtomic c id (some (p, others)) d = install-IsAtomic c _ _ tt

  -- On a store that would load the queue, each call that records, resolves or releases a marker either
  -- throws and leaves the queue and its next sequence as they were, or leaves a store that would load
  -- exactly the new queue.
  pub calls-IsAtomic :
      (c : Coordinator S) (v : JsValue) (token : SyncPendingMarker) (id : Text)
      → IsDurable c
      → IsAtomic c (record_local_commit store c v)
        × IsAtomic c (record_intent store c v)
        × IsAtomic c (record_create_intent store c v)
        × IsAtomic c (resolve_create_intent store c token id)
        × IsAtomic c (release_intent store c token)
  unfolding record_local_commit record_intent record_create_intent resolve_create_intent
      release_intent
  calls-IsAtomic c v token id d = (
    attempt-IsAtomic c (parse_commit v) (commit_request store c) (commit_request-IsAtomic c),
    attempt-IsAtomic c (parse_intent v) _ (λ r. enqueue-IsAtomic c r.operation r.note_id _),
    attempt-IsAtomic c (parse_create_intent v) _
        (λ o. enqueue-IsAtomic c create (placeholder_id c.next_sequence) o),
    elim (Bool-cases (valid_note_id id && not (is_reserved_note_id id))) [
      | inl fine ↦ rw fine (resolve_with-IsAtomic c id (split_placeholder token c.pending) d)
      | inr bad ↦ rw bad (inl (invalid_input, refl, refl, refl))
    ],
    elim (Bool-cases
        (length (keep (λ m. not (matches_token token m)) c.pending) == length c.pending)) [
          | inl same ↦ rw same (inr d)
          | inr other ↦ rw other (install-IsAtomic c _ c.next_sequence tt)
        ],
  )

  loaded-state_value :
      (ms : List SyncPendingMarker)
      → All IsStorable ms
      → length ms ≤ max_pending_markers
      → loaded_state (some (state_value ms)) ≡ ok ms
  unfolding state_value
  loaded-state_value ms h few = validate_state-value ms h few

  -- Let a coordinator's store agree with its queue, which has at most 64 markers, all storable, and
  -- sequences below the greatest safe integer. A coordinator that starts on that store has that
  -- queue, the sequence after the greatest one in it, and no hold.
  pub start_resumes :
      (c : Coordinator S)
      → IsDurable c
      → All IsStorable c.pending
      → length c.pending ≤ max_pending_markers
      → greatest c.pending < max_safe_integer
      → start store c.store_state
        ≡ ok (record {
          pending = c.pending;
          next_sequence = greatest c.pending + 1;
          not_before = 0;
          store_state = c.store_state;
        })
  unfolding start next_sequence_of
  start_resumes c durable h few low =
      let below : leb max_safe_integer (greatest c.pending) ≡ false = ground arith in
      rw (durable, loaded-state_value c.pending h few, below) refl
