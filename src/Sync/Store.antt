-- ===== src/Sync/Store.antt =====
-- core/notesnook-sync-coordinator.ts: the durable state, the store's interface, and the validation
-- of what a store loads.
pub mod RoundTrip
use nook_bridge.Common.{
  ℕ, zero, suc, ◌+◌, Bool, true, false, Option, none, some, List, [], ◌∷◌, ◌≡◌, refl, Text, codes,
  leb, ltb, ◌==◌, if◌then◌else◌, length, max, map,
}
use nook_bridge.Common.Js.{
  JsValue, JsFields, JsItems, undefined, null, boolean, number, nat, string, array, object,
  function, end, field, property, items, from_items, safe_from, text_of, max_safe_integer,
}
use nook_bridge.Sync.Types.{
  SyncOperation, SyncOrigin, SyncPendingMarker, WriteError, invalid_input, sync_failed, Result, ok,
  err, ◌>>=◌, ◌>>◌, guard, require, max_pending_markers, operation_name, origin_name,
  parse_operation, parse_origin, valid_note_id, require_record,
}

-- The frozen copy of a marker that a store is given: `approved` is there only if it is true.
abbrev pub approved_field : Bool → JsFields
approved_field true = field (codes "approved") (boolean true) end
approved_field false = end

abbrev pub marker_value : SyncPendingMarker → JsValue
marker_value m = object (
    field (codes "operation") (string (operation_name m.operation)) (
      field (codes "noteId") (string m.note_id) (
        field (codes "sequence") (number (nat m.sequence))
          (field (codes "origin") (string (origin_name m.origin)) (approved_field m.approved)))))

-- `freezeState`.
unfoldable pub state_value : List SyncPendingMarker → JsValue
state_value pending =
    object (field (codes "pending") (array (from_items (map marker_value pending))) end)

-- The store that is injected. `save` answers the store afterwards and whether it returned; a throw,
-- or a promise in place of a result, is `false`. `load` answers `none` if it throws.
pub record SyncStore (S : Type 0) : Type 0 where
  pub save : S → List SyncPendingMarker → S × Bool
  pub load : S → Option JsValue
  pub load-save :
      (s : S) (pending : List SyncPendingMarker)
      → (save s pending).1 ≡ true
      → load (save s pending).0 ≡ some (state_value pending)

-- `createMemoryStore`.
abbrev pub MemoryState : Type 0
MemoryState = Option (List SyncPendingMarker)

abbrev pub memory_load : MemoryState → JsValue
memory_load none = undefined
memory_load (some pending) = state_value pending

abbrev pub memory_store : SyncStore MemoryState
memory_store = record {
  save = λ s pending. (some pending, true);
  load = λ s. some (memory_load s);
  load-save = λ s pending h. refl;
}

-- `approved` of a loaded marker: absent is not approved, and only a boolean is accepted.
abbrev pub parse_approved : JsValue → Result Bool
parse_approved undefined = ok false
parse_approved (boolean b) = ok b
parse_approved _ = err invalid_input

unfoldable pub validate_marker : JsValue → Result SyncPendingMarker
unfolding require_record
validate_marker raw = do
  record_ ← require_record raw
  origin ← parse_origin (property (codes "origin") record_)
  approved ← parse_approved (property (codes "approved") record_)
  operation ← require (parse_operation (property (codes "operation") record_)) invalid_input
  note_id ← require (text_of (property (codes "noteId") record_)) invalid_input
  guard (valid_note_id note_id) invalid_input
  sequence ← require (safe_from 1 (property (codes "sequence") record_)) invalid_input
  ok (record {
    operation = operation;
    note_id = note_id;
    sequence = sequence;
    origin = origin;
    approved = approved;
  })

unfoldable pub validate_markers : List JsValue → Result (List SyncPendingMarker)
validate_markers [] = ok []
validate_markers (raw ∷ raws) = do
  marker ← validate_marker raw
  markers ← validate_markers raws
  ok (marker ∷ markers)

abbrev pub array_of : JsValue → Result (List JsValue)
array_of (array vs) = ok (items vs)
array_of _ = err invalid_input

unfoldable pub validate_state : JsValue → Result (List SyncPendingMarker)
unfolding require_record validate_markers validate_marker
validate_state value = do
  record_ ← require_record value
  raw ← array_of (property (codes "pending") record_)
  guard (leb (length raw) max_pending_markers) invalid_input
  validate_markers raw

-- The constructor's reading of its store: nothing stored is an empty queue.
abbrev pub loaded_state : Option JsValue → Result (List SyncPendingMarker)
loaded_state none = err invalid_input
loaded_state (some undefined) = ok []
loaded_state (some value) = validate_state value

unfoldable pub greatest : List SyncPendingMarker → ℕ
greatest [] = 0
greatest (m ∷ ms) = max m.sequence (greatest ms)

unfoldable pub next_sequence_of : List SyncPendingMarker → Result ℕ
unfolding greatest
next_sequence_of pending =
    if leb max_safe_integer (greatest pending) then err invalid_input else ok (greatest pending + 1)
