-- ===== src/Sync/PersistentStore.antt =====
-- core/notesnook-sync-state-store.ts: the store that keeps the queue in the encrypted key-value table.
-- The table is what storage/persistent-storage.ts wraps; here it is a record with the JSON encoding
-- left out: a value that was written is read back.
pub mod Refusal
use nook_bridge.Common.{
  ℕ, zero, suc, ◌≤◌, Bool, true, false, not, ◌&&◌, ◌||◌, Option, none, some, List, [], ◌∷◌, ◌≡◌,
  refl, ap, Text, codes, text_eq, leb, ltb, ◌==◌, if◌then◌else◌, length, any, all, map, arith,
  Bool-cases, Option-cases, inl, inr,
}
use nook_bridge.Common.Js.{
  JsValue, JsFields, end, field, undefined, object, array, string, property, own_keys, items,
  from_items, items-from_items, safe_from, text_of,
}
use nook_bridge.Sync.Types.{
  SyncOperation, SyncOrigin, SyncPendingMarker, Result, ok, err, max_pending_markers,
  max_note_id_length, parse_operation, parse_origin,
}
use nook_bridge.Sync.Store.{SyncStore, state_value}

-- `readSync` and `writeSync` under the fixed key. A read answers `none` if it throws or finds no JSON;
-- a write answers whether it returned.
pub record Storage (T : Type 0) : Type 0 where
  pub write_sync : T → JsValue → T × Bool
  pub read_sync : T → Option JsValue
  pub read-write :
      (t : T) (v : JsValue) → (write_sync t v).1 ≡ true → read_sync (write_sync t v).0 ≡ some v

abbrev pub includes : List Text → Text → Bool
includes keys key = any (λ k. text_eq k key) keys

unfoldable pub has_exactly_keys : JsFields → List Text → Bool
has_exactly_keys record_ expected =
    length (own_keys record_) == length expected && all (includes (own_keys record_)) expected

-- A unit that `NOTE_ID_PATTERN` allows: a letter, a digit, `_` or `-`.
abbrev pub is_id_unit : ℕ → Bool
is_id_unit u =
    (leb 0x41 u && leb u 0x5a)
    || (leb 0x61 u && leb u 0x7a)
    || (leb 0x30 u && leb u 0x39)
    || u == 0x5f
    || u == 0x2d

unfoldable pub stored_note_id : Text → Bool
stored_note_id id = ltb 0 (length id) && leb (length id) max_note_id_length && all is_id_unit id

abbrev accepted {ℓ} : {A : Type ℓ} → Result A → Option A
accepted (ok a) = some a
accepted (err e) = none

-- The key is there, so that `undefined` is refused as well.
abbrev pub stored_origin : JsValue → Option SyncOrigin
stored_origin (string s) = accepted (parse_origin (string s))
stored_origin _ = none

abbrev pub marker_of :
    Option SyncOrigin → Option SyncOperation → Option Text → Option ℕ → Option SyncPendingMarker
marker_of (some origin) (some operation) (some note_id) (some sequence) =
    if stored_note_id note_id
    then some (record {
      operation = operation;
      note_id = note_id;
      sequence = sequence;
      origin = origin;
      approved = false;
    })
    else none
marker_of _ _ _ _ = none

abbrev pub basic_keys : List Text
basic_keys = codes "operation" ∷ codes "noteId" ∷ codes "sequence" ∷ []

abbrev pub keys_with_origin : List Text
keys_with_origin = codes "operation" ∷ codes "noteId" ∷ codes "sequence" ∷ codes "origin" ∷ []

abbrev pub read_marker : JsFields → Bool → Option SyncPendingMarker
read_marker fs has_origin =
    if has_exactly_keys fs (if has_origin then keys_with_origin else basic_keys)
    then marker_of
        (if has_origin
          then stored_origin (property (codes "origin") fs)
          else some SyncOrigin.unknown)
        (parse_operation (property (codes "operation") fs)) (text_of (property (codes "noteId") fs))
        (safe_from 1 (property (codes "sequence") fs))
    else none

-- The callback of `rawPending.map`; `none` is its throw.
unfoldable pub normalize_marker : JsValue → Option SyncPendingMarker
normalize_marker (object fs) = read_marker fs (includes (own_keys fs) (codes "origin"))
normalize_marker _ = none

abbrev pub consed :
    Option SyncPendingMarker → Option (List SyncPendingMarker) → Option (List SyncPendingMarker)
consed (some m) (some ms) = some (m ∷ ms)
consed _ _ = none

unfoldable pub normalize_markers : List JsValue → Option (List SyncPendingMarker)
normalize_markers [] = some []
normalize_markers (v ∷ vs) = consed (normalize_marker v) (normalize_markers vs)

abbrev pub normalize_pending : JsValue → Option (List SyncPendingMarker)
normalize_pending (array vs) =
    if leb (length (items vs)) max_pending_markers then normalize_markers (items vs) else none
normalize_pending _ = none

-- `normalizeState`.
unfoldable pub normalize_state : JsValue → Option (List SyncPendingMarker)
normalize_state (object fs) =
    if has_exactly_keys fs (codes "pending" ∷ [])
    then normalize_pending (property (codes "pending") fs)
    else none
normalize_state _ = none

module _ {T : Type 0} (storage : Storage T) where
  abbrev pub write_normal : T → Option (List SyncPendingMarker) → T × Bool
  write_normal t none = (t, false)
  write_normal t (some ms) = Storage.write_sync storage t (state_value ms)

  -- `save`: it throws on what `normalizeState` refuses.
  unfoldable pub save : T → List SyncPendingMarker → T × Bool
  save t pending = write_normal t (normalize_state (state_value pending))

  abbrev pub normal_value : Option (List SyncPendingMarker) → Option JsValue
  normal_value none = none
  normal_value (some ms) = some (state_value ms)

  abbrev pub loaded : Option JsValue → Option JsValue
  loaded none = none
  loaded (some undefined) = some undefined
  loaded (some v) = normal_value (normalize_state v)

  -- `load`; a missing entry is `undefined`.
  unfoldable pub load : T → Option JsValue
  load t = loaded (Storage.read_sync storage t)
