-- ===== src/Sync/RecoveryJournal/Tests.antt =====
-- core/notesnook-recovery-journal.ts: the theorem on a concrete table, and a run.
use nook_bridge.Common.{◌≡◌, refl, true, Option, none, some, [], ◌∷◌, codes, text_eq}
use nook_bridge.Common.Js.{JsValue, object, string, field, end, property}
use nook_bridge.Sync.Types.{parse_operation, same_operation, append}
use nook_bridge.Sync.PersistentStore.{stored_note_id}
use nook_bridge.Sync.RecoveryJournal.{
  JournalStorage, append_date, recorded, parse_stage, normalize_recovery_marker, same_marker,
  same_stage, memory_record, persistent_record, persistent_snapshot,
}
use nook_bridge.Sync.RecoveryJournal.Refinement.{Journal, table_after, memory_after, journals_agree}

-- A table of one entry, which holds the JSON value itself.
abbrev table : JournalStorage (Option JsValue) JsValue
table = record {
  read_text = λ t. some t;
  write_text = λ t s. (some s, true);
  parse_json = λ s. some s;
  stringify = λ v. v;
  read-write = λ t s h. refl;
  parse-stringify = λ ms. refl;
}

abbrev date_of_n1 : JsValue
date_of_n1 = object (
    field (codes "operation") (string (codes "append")) (
      field (codes "noteId") (string (codes "n1"))
        (field (codes "stage") (string (codes "append-date")) end)))

-- A marker that is recorded twice is there once.
recorded_once :
    memory_record date_of_n1 (memory_after table (λ t s. refl) (date_of_n1 ∷ []) [])
    ≡ ((record { operation = append; note_id = codes "n1"; stage = append_date }) ∷ [], recorded)
unfolding memory_record normalize_recovery_marker parse_operation parse_stage property text_eq
    stored_note_id same_marker same_operation same_stage
recorded_once = refl

journals_agree_example :
    ((persistent_record table date_of_n1 (table_after table (λ t s. refl) (date_of_n1 ∷ []) none)).1
      ≡ (memory_record date_of_n1 (memory_after table (λ t s. refl) (date_of_n1 ∷ []) [])).1)
    × (persistent_snapshot table
          (persistent_record table date_of_n1
            (table_after table (λ t s. refl) (date_of_n1 ∷ []) none)).0
        ≡ (memory_record date_of_n1 (memory_after table (λ t s. refl) (date_of_n1 ∷ []) [])).0)
    × Journal (memory_record date_of_n1 (memory_after table (λ t s. refl) (date_of_n1 ∷ []) [])).0
journals_agree_example = journals_agree table (λ t s. refl) (date_of_n1 ∷ []) date_of_n1 none refl
