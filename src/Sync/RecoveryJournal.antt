-- ===== src/Sync/RecoveryJournal.antt =====
-- core/notesnook-recovery-journal.ts: the journal of writes that were begun and may be repaired, in
-- memory and in the encrypted key-value table. The table and the JSON text are parameters.
pub mod Refinement
mod Tests
use nook_bridge.Common.{
  ℕ, ◌≡◌, refl, Bool, true, false, ◌&&◌, ◌||◌, Option, none, some, List, [], ◌∷◌, ◌++◌, map, Text,
  codes, text_eq, leb, if◌then◌else◌, length, any, ◌>>=◌,
}
use nook_bridge.Common.Js.{
  JsValue, undefined, string, array, object, end, field, property, items, from_items, text_of,
}
use nook_bridge.Sync.Types.{SyncOperation, parse_operation, operation_name, same_operation}
use nook_bridge.Sync.PersistentStore.{stored_note_id}

pub data RecoveryStage : Type 0 where
  create_notebook_attach create_tag_relation append_date update_metadata update_content
        update_tags :
      RecoveryStage

pub record RecoveryMarker : Type 0 where
  pub operation : SyncOperation
  pub note_id : Text
  pub stage : RecoveryStage

abbrev pub max_markers : ℕ
max_markers = 64

abbrev pub stage_name : RecoveryStage → Text
stage_name create_notebook_attach = codes "create-notebook-attach"
stage_name create_tag_relation = codes "create-tag-relation"
stage_name append_date = codes "append-date"
stage_name update_metadata = codes "update-metadata"
stage_name update_content = codes "update-content"
stage_name update_tags = codes "update-tags"

-- `isStage`, with the stage that the value names.
unfoldable pub parse_stage : JsValue → Option RecoveryStage
parse_stage (string s) =
    if text_eq s (codes "create-notebook-attach")
    then some create_notebook_attach
    else if text_eq s (codes "create-tag-relation")
    then some create_tag_relation
    else if text_eq s (codes "append-date")
    then some append_date
    else if text_eq s (codes "update-metadata")
    then some update_metadata
    else if text_eq s (codes "update-content")
    then some update_content
    else if text_eq s (codes "update-tags")
    then some update_tags
    else none
parse_stage _ = none

abbrev pub parts : Option SyncOperation → Option Text → Option RecoveryStage → Option RecoveryMarker
parts (some operation) (some note_id) (some stage) =
    if stored_note_id note_id
    then some (record { operation = operation; note_id = note_id; stage = stage })
    else none
parts _ _ _ = none

-- `none` is the throw.
unfoldable pub normalize_recovery_marker : JsValue → Option RecoveryMarker
normalize_recovery_marker (object fs) =
    parts (parse_operation (property (codes "operation") fs))
      (text_of (property (codes "noteId") fs)) (parse_stage (property (codes "stage") fs))
normalize_recovery_marker _ = none

unfoldable pub normalize_each : List JsValue → Option (List RecoveryMarker)
normalize_each [] = some []
normalize_each (v ∷ vs) = do m ← normalize_recovery_marker v; ms ← normalize_each vs; some (m ∷ ms)

unfoldable pub normalize_recovery_markers : JsValue → Option (List RecoveryMarker)
normalize_recovery_markers undefined = some []
normalize_recovery_markers (array vs) =
    if leb (length (items vs)) max_markers then normalize_each (items vs) else none
normalize_recovery_markers _ = none

unfoldable pub same_stage : RecoveryStage → RecoveryStage → Bool
same_stage create_notebook_attach create_notebook_attach = true
same_stage create_tag_relation create_tag_relation = true
same_stage append_date append_date = true
same_stage update_metadata update_metadata = true
same_stage update_content update_content = true
same_stage update_tags update_tags = true
same_stage _ _ = false

unfoldable pub same_marker : RecoveryMarker → RecoveryMarker → Bool
same_marker a b =
    same_operation a.operation b.operation
    && text_eq a.note_id b.note_id
    && same_stage a.stage b.stage

pub data RecordOutcome : Type 0 where
  recorded invalid_marker journal_full unavailable : RecordOutcome

-- `MemoryNotesnookRecoveryJournal.record` of a marker that was normalized: the markers after it, and
-- how it ends.
abbrev pub push : List RecoveryMarker → RecoveryMarker → List RecoveryMarker × RecordOutcome
push markers m =
    if any (λ existing. same_marker existing m) markers
    then (markers, recorded)
    else if leb max_markers (length markers)
    then (markers, journal_full)
    else (markers ++ (m ∷ []), recorded)

abbrev pub remembered :
    List RecoveryMarker → Option RecoveryMarker → List RecoveryMarker × RecordOutcome
remembered markers none = (markers, invalid_marker)
remembered markers (some m) = push markers m

-- `MemoryNotesnookRecoveryJournal.record`.
unfoldable pub memory_record : JsValue → List RecoveryMarker → List RecoveryMarker × RecordOutcome
memory_record value markers = remembered markers (normalize_recovery_marker value)

abbrev pub recovery_marker_value : RecoveryMarker → JsValue
recovery_marker_value m = object (
    field (codes "operation") (string (operation_name m.operation)) (
      field (codes "noteId") (string m.note_id)
        (field (codes "stage") (string (stage_name m.stage)) end)))

abbrev pub journal_value : List RecoveryMarker → JsValue
journal_value ms = array (from_items (map recovery_marker_value ms))

-- `readSync` and `writeSync` under the journal's key, and `JSON`. A read answers `none` if it throws,
-- and an inner `none` for a missing entry; a write answers whether it returned.
pub record JournalStorage (T Json : Type 0) : Type 0 where
  pub read_text : T → Option (Option Json)
  pub write_text : T → Json → T × Bool
  pub parse_json : Json → Option JsValue
  pub stringify : JsValue → Json
  pub read-write :
      (t : T) (s : Json) → (write_text t s).1 ≡ true → read_text (write_text t s).0 ≡ some (some s)
  pub parse-stringify :
      (ms : List RecoveryMarker)
      → parse_json (stringify (journal_value ms)) ≡ some (journal_value ms)

abbrev pub or_nothing : Option (List RecoveryMarker) → List RecoveryMarker
or_nothing none = []
or_nothing (some markers) = markers

module _ {T Json : Type 0} (storage : JournalStorage T Json) where
  abbrev pub decoded : Option (Option Json) → Option (List RecoveryMarker)
  decoded none = none
  decoded (some none) = some []
  decoded (some (some encoded)) = do
    value ← storage.parse_json encoded
    normalize_recovery_markers value

  abbrev pub written : T × Bool → T × RecordOutcome
  written (t, true) = (t, recorded)
  written (t, false) = (t, unavailable)

  -- `PersistentNotesnookRecoveryJournal.record` of a marker that was normalized, after its read.
  abbrev pub kept : T → RecoveryMarker → Option (List RecoveryMarker) → T × RecordOutcome
  kept t m none = (t, unavailable)
  kept t m (some current) =
      if any (λ existing. same_marker existing m) current
      then (t, recorded)
      else if leb max_markers (length current)
      then (t, journal_full)
      else written (storage.write_text t (storage.stringify (journal_value (current ++ (m ∷ [])))))

  abbrev pub persisted : T → Option RecoveryMarker → T × RecordOutcome
  persisted t none = (t, invalid_marker)
  persisted t (some m) = kept t m (decoded (storage.read_text t))

  -- `PersistentNotesnookRecoveryJournal.record`.
  unfoldable pub persistent_record : JsValue → T → T × RecordOutcome
  persistent_record value t = persisted t (normalize_recovery_marker value)

  unfoldable pub persistent_snapshot : T → List RecoveryMarker
  persistent_snapshot t = or_nothing (decoded (storage.read_text t))
