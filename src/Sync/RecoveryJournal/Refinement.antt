-- ===== src/Sync/RecoveryJournal/Refinement.antt =====
-- core/notesnook-recovery-journal.ts: the journal in the table behaves as the journal in memory.
use nook_bridge.Common.{
  ◌≤◌, ◌≡◌, ◌≢◌, text_eq_refl, refl, sym, ap, subst, ◌∙◌, Bool, true, false, Option, none, some,
  List, [], ◌∷◌, ◌++◌, map, Text, text_eq, leb, length, any, arith, Bool-cases, inl, inr, All,
  All-append, length-append, length-map, some_back,
}
use nook_bridge.Common.Js.{JsValue, string, object, property, items-from_items}
use nook_bridge.Sync.Types.{SyncOperation, same_operation_refl, parse_operation-name}
use nook_bridge.Sync.PersistentStore.{stored_note_id}
use nook_bridge.Sync.RecoveryJournal.{
  RecoveryStage, create_notebook_attach, create_tag_relation, append_date, update_metadata,
  update_content, update_tags, RecoveryMarker, max_markers, stage_name, parse_stage, parts,
  normalize_recovery_marker, normalize_each, normalize_recovery_markers, same_marker, RecordOutcome,
  recorded, push, same_stage, memory_record, recovery_marker_value, journal_value, JournalStorage,
  decoded, written, kept, persisted, persistent_record, persistent_snapshot, remembered, or_nothing,
}

-- No marker is the same as one before it.
abbrev pub Once : List RecoveryMarker → Type 0
Once [] = Unit
Once (m ∷ ms) = All (λ later. m ≢ later) ms × Once ms

-- A journal in memory: valid notes, none twice, and at most 64.
pub record Journal (ms : List RecoveryMarker) : Type 0 where
  pub valid : All (λ m. stored_note_id m.note_id ≡ true) ms
  pub once : Once ms
  pub few : length ms ≤ max_markers

parse_stage-name : (s : RecoveryStage) → parse_stage (string (stage_name s)) ≡ some s
unfolding parse_stage text_eq
parse_stage-name create_notebook_attach = refl
parse_stage-name create_tag_relation = refl
parse_stage-name append_date = refl
parse_stage-name update_metadata = refl
parse_stage-name update_content = refl
parse_stage-name update_tags = refl

normalize-value :
    (m : RecoveryMarker)
    → stored_note_id m.note_id ≡ true
    → normalize_recovery_marker (recovery_marker_value m) ≡ some m
unfolding normalize_recovery_marker property text_eq
normalize-value m ok = rw (parse_operation-name, parse_stage-name, ok) refl

normalize_each-value :
    (ms : List RecoveryMarker)
    → All (λ m. stored_note_id m.note_id ≡ true) ms
    → normalize_each (map recovery_marker_value ms) ≡ some ms
unfolding normalize_each
normalize_each-value [] h = refl
normalize_each-value (m ∷ ms) (ok, oks) =
    rw (normalize-value m ok, normalize_each-value ms oks) refl

normalize-Journal :
    (ms : List RecoveryMarker)
    → Journal ms
    → normalize_recovery_markers (journal_value ms) ≡ some ms
unfolding normalize_recovery_markers
normalize-Journal ms h =
    rw (items-from_items, length-map)
      (let few = h.few in
        let fits : leb (length ms) max_markers ≡ true = ground arith in
        rw (fits, normalize_each-value ms h.valid) refl)

parts_valid :
    (o : Option SyncOperation) (n : Option Text) (st : Option RecoveryStage) (m : RecoveryMarker)
    → parts o n st ≡ some m
    → stored_note_id m.note_id ≡ true
parts_valid none n st m h = absurd (ground arith)
parts_valid (some o) none st m h = absurd (ground arith)
parts_valid (some o) (some n) none m h = absurd (ground arith)
parts_valid (some o) (some n) (some st) m h = elim (Bool-cases (stored_note_id n)) [
  | inl ok ↦
      let made = some_back _ _ (rw ok at h) in ap (λ x. stored_note_id x.note_id) (sym made) ∙ ok
  | inr bad ↦ absurd (ground arith)
]

normalize_valid :
    (value : JsValue) (m : RecoveryMarker)
    → normalize_recovery_marker value ≡ some m
    → stored_note_id m.note_id ≡ true
unfolding normalize_recovery_marker
normalize_valid (object fs) m h = parts_valid _ _ _ m h
normalize_valid _ m h = cc

same_stage_refl : (s : RecoveryStage) → same_stage s s ≡ true
unfolding same_stage
same_stage_refl s = ground arith

same_marker_of : (a b : RecoveryMarker) → a ≡ b → same_marker a b ≡ true
unfolding same_marker
same_marker_of a b e =
    ap (same_marker a) (sym e)
    ∙ rw (same_operation_refl a.operation, text_eq_refl a.note_id, same_stage_refl a.stage) refl

new_marker-differs : (a b : RecoveryMarker) → same_marker a b ≡ false → a ≢ b
new_marker-differs a b apart e = let alike = same_marker_of a b e in absurd (ground arith)

All-differ-append :
    (x m : RecoveryMarker) (ms : List RecoveryMarker)
    → All (λ later. x ≢ later) ms
    → x ≢ m
    → All (λ later. x ≢ later) (ms ++ (m ∷ []))
All-differ-append x m [] h apart = (apart, tt)
All-differ-append x m (y ∷ ms) (first, h) apart = (first, All-differ-append x m ms h apart)

Once-append :
    (m : RecoveryMarker) (ms : List RecoveryMarker)
    → any (λ existing. same_marker existing m) ms ≡ false
    → Once ms
    → Once (ms ++ (m ∷ []))
Once-append m [] new h = (tt, tt)
Once-append m (x ∷ ms) new (apart, h) = (
  All-differ-append x m ms apart (new_marker-differs x m (ground arith)),
  Once-append m ms (ground arith) h,
)

push-Journal :
    (ms : List RecoveryMarker) (m : RecoveryMarker)
    → Journal ms
    → stored_note_id m.note_id ≡ true
    → any (λ existing. same_marker existing m) ms ≡ false
    → leb max_markers (length ms) ≡ false
    → Journal (ms ++ (m ∷ []))
push-Journal ms m h ok new room =
    let counted = length-append ms (m ∷ []) in
    record {
      valid = All-append (λ m. stored_note_id m.note_id ≡ true) ms (m ∷ []) h.valid (ok, tt);
      once = Once-append m ms new h.once;
      few = ground arith;
    }

module _ {T Json : Type 0} (storage : JournalStorage T Json) where
  -- The table holds a journal: its JSON text, or nothing for the empty one.
  abbrev pub Represents : T → List RecoveryMarker → Type 0
  Represents t ms = decoded storage (storage.read_text t) ≡ some ms

  written-Represents :
      (t : T) (ms : List RecoveryMarker)
      → Journal ms
      → (storage.write_text t (storage.stringify (journal_value ms))).1 ≡ true
      → Represents (storage.write_text t (storage.stringify (journal_value ms))).0 ms
  written-Represents t ms h success =
      rw (storage.read-write t (storage.stringify (journal_value ms)) success)
        (rw (storage.parse-stringify ms) (normalize-Journal ms h))

  -- A call on the table, against the same call in memory.
  abbrev pub Agrees : T × RecordOutcome → List RecoveryMarker × RecordOutcome → Type 0
  Agrees (t, outcome) (ms, outcome') = (outcome ≡ outcome') × Represents t ms × Journal ms

  written_ok : (p : T × Bool) → p.1 ≡ true → written storage p ≡ (p.0, recorded)
  written_ok (t, true) h = refl
  written_ok (t, false) h = absurd (ground arith)

  module _ (always : (t : T) (s : Json) → (storage.write_text t s).1 ≡ true) where
    written-Agrees :
        (t : T) (ms : List RecoveryMarker)
        → Journal ms
        → Agrees
            (written storage (storage.write_text t (storage.stringify (journal_value ms))))
            (ms, recorded)
    written-Agrees t ms h =
        let success = always t (storage.stringify (journal_value ms)) in
        subst (λ p. Agrees p (ms, recorded))
          (sym (written_ok (storage.write_text t (storage.stringify (journal_value ms))) success))
          (refl, written-Represents t ms h success, h)

    kept-Agrees :
        (t : T) (ms : List RecoveryMarker) (m : RecoveryMarker)
        → Journal ms
        → Represents t ms
        → stored_note_id m.note_id ≡ true
        → Agrees (kept storage t m (some ms)) (push ms m)
    kept-Agrees t ms m h there ok =
        elim (Bool-cases (any (λ existing. same_marker existing m) ms)) [
          | inl known ↦ rw known (refl, there, h)
          | inr new ↦ elim (Bool-cases (leb max_markers (length ms))) [
            | inl full ↦ rw (new, full) (refl, there, h)
            | inr room ↦
                rw (new, room) (written-Agrees t (ms ++ (m ∷ [])) (push-Journal ms m h ok new room))
          ]
        ]

    persisted-Agrees :
        (t : T) (ms : List RecoveryMarker) (o : Option RecoveryMarker)
        → Journal ms
        → Represents t ms
        → ((m : RecoveryMarker) → o ≡ some m → stored_note_id m.note_id ≡ true)
        → Agrees (persisted storage t o) (remembered ms o)
    persisted-Agrees t ms none h there ok = (refl, there, h)
    persisted-Agrees t ms (some m) h there ok =
        subst (λ d. Agrees (kept storage t m d) (remembered ms (some m))) (sym there)
          (kept-Agrees t ms m h there (ok m refl))

    persistent_record-Agrees :
        (value : JsValue) (t : T) (ms : List RecoveryMarker)
        → Journal ms
        → Represents t ms
        → Agrees (persistent_record storage value t) (memory_record value ms)
    unfolding persistent_record memory_record
    persistent_record-Agrees value t ms h there =
        persisted-Agrees t ms (normalize_recovery_marker value) h there
          (λ m e. normalize_valid value m e)

    abbrev pub table_after : List JsValue → T → T
    table_after [] t = t
    table_after (v ∷ vs) t = table_after vs (persistent_record storage v t).0

    abbrev pub memory_after : List JsValue → List RecoveryMarker → List RecoveryMarker
    memory_after [] ms = ms
    memory_after (v ∷ vs) ms = memory_after vs (memory_record v ms).0

    after_agrees :
        (values : List JsValue) (t : T) (ms : List RecoveryMarker)
        → Journal ms
        → Represents t ms
        → Represents (table_after values t) (memory_after values ms)
          × Journal (memory_after values ms)
    after_agrees [] t ms h there = (there, h)
    after_agrees (v ∷ vs) t ms h there =
        let (_, there', h') = persistent_record-Agrees v t ms h there in
        after_agrees vs (persistent_record storage v t).0 (memory_record v ms).0 h' there'

    -- On a table without a journal, whose writes return: after any values have been recorded, the
    -- next call ends on the table as it does in memory, and both journals show the same markers,
    -- which name valid notes, are at most 64, and of which no two are equal.
    pub journals_agree :
        (values : List JsValue) (value : JsValue) (t : T)
        → storage.read_text t ≡ some none
        → ((persistent_record storage value (table_after values t)).1
            ≡ (memory_record value (memory_after values [])).1)
          × (persistent_snapshot storage (persistent_record storage value (table_after values t)).0
              ≡ (memory_record value (memory_after values [])).0)
          × Journal (memory_record value (memory_after values [])).0
    unfolding persistent_snapshot
    journals_agree values value t fresh =
        let (there, h) =
          after_agrees values t [] (record { valid = tt; once = tt; few = omega arith })
            (ap (decoded storage) fresh) in
        let (same, there', h') =
          persistent_record-Agrees value (table_after values t) (memory_after values []) h there in
        (same, ap or_nothing there', h')
