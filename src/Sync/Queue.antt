-- ===== src/Sync/Queue.antt =====
-- core/notesnook-sync-coordinator.ts: the coordinator's state and the calls that record, release,
-- approve and count markers. A call answers the coordinator afterwards and its result or the error
-- thrown. Values are immutable here, so the defensive copies are the values themselves.
pub mod Bounds
pub mod Durable
pub mod Origins
pub mod Intents
use nook_bridge.Common.{
  ℕ, zero, suc, ◌+◌, Bool, true, false, not, ◌&&◌, ◌||◌, Option, none, some, List, [], ◌∷◌, ◌++◌,
  Text, codes, decimal, text_eq, leb, ltb, ◌==◌, if◌then◌else◌, length, max, map, keep, count,
}
use nook_bridge.Common.Js.{JsValue, boolean, property, safe_from, text_of}
use nook_bridge.Sync.Types.{
  SyncOperation, create, append, update, delete, SyncOrigin, mcp, unknown, operator,
  SyncPendingMarker, WriteError, invalid_input, sync_required, sync_failed, Result, ok, err, ◌>>=◌,
  ◌>>◌, guard, require, max_pending_markers, pending_create_prefix, rank, parse_operation,
  parse_origin, valid_note_id, is_reserved_note_id, require_record, same_operation,
}
use nook_bridge.Sync.Store.{SyncStore, greatest, loaded_state, next_sequence_of}

pub record Coordinator (S : Type 0) : Type 0 where
  pub pending : List SyncPendingMarker
  pub next_sequence : ℕ
  pub not_before : ℕ
  pub store_state : S

-- `stickyOrigin`.
unfoldable pub sticky_origin : List SyncPendingMarker → Text → SyncOrigin → SyncOrigin
sticky_origin [] note_id best = best
sticky_origin (marker ∷ pending) note_id best = sticky_origin pending note_id (
    if text_eq marker.note_id note_id && ltb (rank best) (rank marker.origin)
    then marker.origin
    else best)

abbrev pub is_boolean : Bool → JsValue → Bool
is_boolean b (boolean c) = if b then c else not c
is_boolean b _ = false

pub record Request : Type 0 where
  pub operation : SyncOperation
  pub note_id : Text
  pub origin : SyncOrigin

-- The checks of `recordLocalCommit` on the receipt, which all throw the same error.
unfoldable pub parse_commit : JsValue → Result Request
parse_commit receipt = do
  record_ ← require_record receipt
  operation ← require (parse_operation (property (codes "operation") record_)) invalid_input
  id ← require (text_of (property (codes "id") record_)) invalid_input
  guard (valid_note_id id) invalid_input
  guard (is_boolean true (property (codes "localCommitted") record_)) invalid_input
  guard (is_boolean false (property (codes "remoteSynced") record_)) invalid_input
  guard (is_boolean true (property (codes "pendingSync") record_)) invalid_input
  guard (not (is_reserved_note_id id)) invalid_input
  origin ← parse_origin (property (codes "origin") record_)
  ok (record { operation = operation; note_id = id; origin = origin })

abbrev pub existing_note : SyncOperation → Bool
existing_note create = false
existing_note _ = true

-- The checks of `recordIntent`.
unfoldable pub parse_intent : JsValue → Result Request
parse_intent intent = do
  record_ ← require_record intent
  operation ← require (parse_operation (property (codes "operation") record_)) invalid_input
  guard (existing_note operation) invalid_input
  note_id ← require (text_of (property (codes "noteId") record_)) invalid_input
  guard (valid_note_id note_id) invalid_input
  guard (not (is_reserved_note_id note_id)) invalid_input
  origin ← parse_origin (property (codes "origin") record_)
  ok (record { operation = operation; note_id = note_id; origin = origin })

unfoldable pub parse_create_intent : JsValue → Result SyncOrigin
parse_create_intent intent = do
  record_ ← require_record intent
  parse_origin (property (codes "origin") record_)

-- A queued marker for the same operation on the same note, which a new commit replaces.
abbrev pub same_target : SyncOperation → Text → SyncPendingMarker → Bool
same_target operation note_id marker =
    same_operation marker.operation operation && text_eq marker.note_id note_id

-- The marker that a token from `recordIntent` or `recordCreateIntent` names.
abbrev pub matches_token : SyncPendingMarker → SyncPendingMarker → Bool
matches_token token marker =
    marker.sequence == token.sequence && same_target token.operation token.note_id marker

abbrev pub new_marker : SyncOperation → Text → ℕ → SyncOrigin → SyncPendingMarker
new_marker operation note_id sequence origin = record {
  operation = operation;
  note_id = note_id;
  sequence = sequence;
  origin = origin;
  approved = false;
}

-- The queue after a commit: markers for the same operation and note make way.
abbrev pub after_commit : {S : Type 0} → Coordinator S → Request → List SyncPendingMarker
after_commit c r =
    keep (λ m. not (same_target r.operation r.note_id m)) c.pending
    ++ new_marker r.operation r.note_id c.next_sequence (sticky_origin c.pending r.note_id r.origin)
      ∷ []

abbrev pub placeholder_id : ℕ → Text
placeholder_id n = pending_create_prefix ++ decimal n

-- The stored placeholder that a token names; the first one, as `find` answers.
abbrev pub is_placeholder : SyncPendingMarker → SyncPendingMarker → Bool
is_placeholder token marker =
    marker.sequence == token.sequence
    && same_operation marker.operation create
    && same_operation token.operation create
    && text_eq marker.note_id token.note_id
    && is_reserved_note_id marker.note_id

abbrev pub put_before :
    SyncPendingMarker
    → Option (SyncPendingMarker × List SyncPendingMarker)
    → Option (SyncPendingMarker × List SyncPendingMarker)
put_before m none = none
put_before m (some (p, others)) = some (p, m ∷ others)

-- The queue without its first placeholder for the token (`marker !== placeholder` compares
-- objects), and that placeholder.
unfoldable pub split_placeholder :
    SyncPendingMarker → List SyncPendingMarker → Option (SyncPendingMarker × List SyncPendingMarker)
split_placeholder token [] = none
split_placeholder token (m ∷ ms) =
    if is_placeholder token m then some (m, ms) else put_before m (split_placeholder token ms)

module _ {S : Type 0} (store : SyncStore S) where
  -- `persist` and the assignments behind it: a failed save leaves the queue and throws.
  unfoldable pub install {ℓ} :
      {A : Type ℓ} → Coordinator S → List SyncPendingMarker → ℕ → A → Coordinator S × Result A
  install c pending next result =
      let (s, saved) = SyncStore.save store c.store_state pending in
      if saved
      then (record c { pending = pending; next_sequence = next; store_state = s }, ok result)
      else (record c { store_state = s }, err sync_failed)

  abbrev pub attempt {ℓ κ} :
      {A : Type ℓ} {B : Type κ}
      → Coordinator S
      → Result A
      → (A → Coordinator S × Result B)
      → Coordinator S × Result B
  attempt c (ok a) k = k a
  attempt c (err e) k = (c, err e)

  -- The constructor, past its options: the queue that the store holds, and no hold.
  unfoldable pub start : S → Result (Coordinator S)
  start s = do
    pending ← loaded_state (SyncStore.load store s)
    next ← next_sequence_of pending
    ok (record { pending = pending; next_sequence = next; not_before = 0; store_state = s })

  unfoldable pub commit_request : Coordinator S → Request → Coordinator S × Result Request
  commit_request c r =
      if ltb max_pending_markers (length (after_commit c r))
      then (c, err invalid_input)
      else install c (after_commit c r) (suc c.next_sequence) r

  unfoldable pub record_local_commit : Coordinator S → JsValue → Coordinator S × Result Request
  record_local_commit c receipt = attempt c (parse_commit receipt) (commit_request c)

  -- The common end of the two write-ahead calls.
  unfoldable pub enqueue :
      Coordinator S → SyncOperation → Text → SyncOrigin → Coordinator S × Result SyncPendingMarker
  enqueue c operation note_id origin =
      let marker = new_marker operation note_id c.next_sequence origin in
      if leb max_pending_markers (length c.pending)
      then (c, err sync_required)
      else install c (c.pending ++ marker ∷ []) (suc c.next_sequence) marker

  unfoldable pub record_intent : Coordinator S → JsValue → Coordinator S × Result SyncPendingMarker
  record_intent c intent =
      attempt c (parse_intent intent)
        λ r. enqueue c r.operation r.note_id (sticky_origin c.pending r.note_id r.origin)

  unfoldable pub record_create_intent :
      Coordinator S → JsValue → Coordinator S × Result SyncPendingMarker
  record_create_intent c intent =
      attempt c (parse_create_intent intent) (enqueue c create (placeholder_id c.next_sequence))

  abbrev pub resolve_with :
      Coordinator S
      → Text
      → Option (SyncPendingMarker × List SyncPendingMarker)
      → Coordinator S × Result (Unit {0})
  resolve_with c note_id none = (c, ok tt)
  resolve_with c note_id (some (placeholder, others)) =
      install c
        (keep (λ m. not (same_target create note_id m)) others
          ++ new_marker create note_id c.next_sequence
              (sticky_origin c.pending note_id placeholder.origin)
            ∷ [])
        (suc c.next_sequence) tt

  unfoldable pub resolve_create_intent :
      Coordinator S → SyncPendingMarker → Text → Coordinator S × Result (Unit {0})
  resolve_create_intent c token note_id =
      if valid_note_id note_id && not (is_reserved_note_id note_id)
      then resolve_with c note_id (split_placeholder token c.pending)
      else (c, err invalid_input)

  unfoldable pub release_intent :
      Coordinator S → SyncPendingMarker → Coordinator S × Result (Unit {0})
  release_intent c token =
      let next = keep (λ m. not (matches_token token m)) c.pending in
      if length next == length c.pending then (c, ok tt) else install c next c.next_sequence tt

  -- `checkCapacity`: `none` is `accept`, and otherwise the capacity of a full queue.
  unfoldable pub check_capacity : Coordinator S → Option ℕ
  check_capacity c =
      if leb max_pending_markers (length c.pending) then some max_pending_markers else none
