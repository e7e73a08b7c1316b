-- ===== src/Service/UndoStore.antt =====
-- service/notes-undo-store.ts: the encrypted store of the operator's operations. The file system, the
-- cipher, the JSON of a payload, the clock and the random names are parameters.
pub mod Types
pub mod Records
pub mod Recovery
pub mod Changes
pub mod Calls
pub mod Life
pub mod Settling
pub mod Opened
mod Tests
use nook_bridge.Common.{
  ℕ, ◌+◌, ◌*◌, Bool, true, false, not, ◌&&◌, ◌||◌, Option, none, some, List, [], ◌∷◌, map, Text,
  codes, text_eq, leb, ltb, ◌==◌, if◌then◌else◌, length, any, all, keep, is_some,
}
use nook_bridge.Common.Js.{JsValue, string, undefined, safe_from, max_safe_integer}
use nook_bridge.Service.Operator.Context.{is_operation_handle}
use nook_bridge.Service.UndoStore.Types.{
  OperationState, prepared, committing, committed, unresolved, undone, aborted, OperationKind,
  create, edit, undo, OperationRecord, Entry, Limits, valid_options, may_become, same_state,
  is_expirable, StoreError, invalid_input, conflict, quota, missing, io, closed, corrupt, Result,
  ok, err, OperationStoreFs, Codec, Randomness, Store, entry_of, put, drop, total_bytes,
}

-- The next step after one that returned.
abbrev pub and_then {ℓ κ} :
    {D : Type 0} {A : Type ℓ} {B : Type κ}
    → Store D × Result A
    → (A → Store D → Store D × Result B)
    → Store D × Result B
and_then (s, ok a) next = next a s
and_then (s, err e) next = (s, err e)

unfoldable pub parse_kind : JsValue → Option OperationKind
parse_kind (string s) =
    if text_eq s (codes "create")
    then some create
    else if text_eq s (codes "edit")
    then some edit
    else if text_eq s (codes "undo")
    then some undo
    else none
parse_kind _ = none

abbrev or_missing : Option Entry → Result OperationRecord
or_missing none = err missing
or_missing (some e) = ok e.operation

unfoldable pub lookup : Text → List Entry → Result OperationRecord
lookup handle records =
    if is_operation_handle handle then or_missing (entry_of handle records) else err invalid_input

abbrev pub same_owner : Option Text → Option Text → Bool
same_owner none actual = true
same_owner (some owner) none = false
same_owner (some owner) (some actual) = text_eq actual owner

abbrev pub text_or_none : JsValue → Option Text
text_or_none (string s) = some s
text_or_none _ = none

-- The payload of a transition: `undefined` keeps the old one.
abbrev pub next_payload : JsValue → Text → Option Text
next_payload undefined old = some old
next_payload (string s) old = some s
next_payload _ old = none

module _ {D : Type 0} where
  -- `closeKey`.
  abbrev pub close_key : Store D → Store D
  close_key s = record s { records = []; is_closed = true }

  abbrev pub then_io : D × Bool → (D → D × Bool) → D × Bool
  then_io (disk, true) next = next disk
  then_io (disk, false) next = (disk, false)

  -- `io`: a failure closes the store.
  abbrev pub after_io : Store D → D × Bool → Store D × Result (Unit {0})
  after_io s (disk, true) = (record s { disk = disk }, ok tt)
  after_io s (disk, false) = (close_key (record s { disk = disk }), err io)

  abbrev pub installed : OperationRecord → ℕ → Store D → Store D × Result OperationRecord
  installed operation bytes s = (
    record s { records = put (record { operation = operation; bytes = bytes }) s.records },
    ok operation,
  )

  -- `run`: nothing happens on a closed store.
  abbrev pub run {ℓ} : {A : Type ℓ} → (Store D → Store D × Result A) → Store D → Store D × Result A
  run action s = if s.is_closed then (s, err closed) else action s

module _ {D Frame : Type 0} (fs : OperationStoreFs D Frame) (codec : Codec Frame)
    (limits : Limits) where
  unfoldable pub write_frame : D → Randomness → Text → Frame → D × Bool
  write_frame disk random handle frame = then_io (fs.write_exclusive disk random.temp frame) (λ d.
      then_io (fs.sync_file d random.temp)
        (λ d. then_io (fs.rename d random.temp handle) (λ d. fs.sync_directory d)))

  unfoldable pub erase : D → Text → D × Bool
  erase disk name = then_io (fs.remove disk name) (λ d. fs.sync_directory d)

  -- Whether the store has room for a frame, beside the entry that it may replace.
  abbrev pub has_room : List Entry → Text → ℕ → Bool
  has_room records handle bytes =
      (is_some (entry_of handle records) || ltb (length records) limits.max_records)
      && leb (total_bytes records + bytes) limits.max_total_bytes

  unfoldable pub persist : Randomness → OperationRecord → Store D → Store D × Result OperationRecord
  persist random operation s =
      let frame = codec.encode random.nonce operation in
      let bytes = codec.frame_bytes frame in
      if ltb limits.max_record_bytes (codec.payload_bytes operation.payload)
      then (s, err quota)
      else if ltb limits.max_record_bytes (codec.plain_bytes operation + 32)
      then (s, err quota)
      else if has_room s.records operation.handle bytes
      then and_then (after_io s (write_frame s.disk random operation.handle frame))
          (λ u s'. installed operation bytes s')
      else (s, err quota)

  unfoldable pub remove : Text → Store D → Store D × Result (Unit {0})
  remove handle s =
      and_then (after_io s (erase s.disk handle))
        (λ u s'. (record s' { records = drop handle s'.records }, ok tt))

  unfoldable pub expire_each : ℕ → List Entry → Store D → Store D × Result (Unit {0})
  expire_each t [] s = (s, ok tt)
  expire_each t (e ∷ es) s =
      let rest = expire_each t es in
      if leb e.operation.expires_at t && is_expirable e.operation.state
      then and_then (remove e.operation.handle s) (λ u s'. rest s')
      else rest s

  -- `expire`; the clock's reading is `none` where it is no natural number.
  unfoldable pub expire : Option ℕ → Store D → Store D × Result (Unit {0})
  expire none s = (s, err invalid_input)
  expire (some t) s = expire_each t s.records s

  abbrev pub owned : Option Text → Result OperationRecord → Result OperationRecord
  owned owner (err e) = err e
  owned owner (ok r) =
      if same_owner owner (codec.payload_owner r.payload) then ok r else err missing

  unfoldable pub owned_lookup : Text → Option Text → List Entry → Result OperationRecord
  owned_lookup handle owner records = owned owner (lookup handle records)

  abbrev pub insert_new : Randomness → OperationRecord → Store D → Store D × Result OperationRecord
  insert_new random operation s =
      if is_some (entry_of operation.handle s.records)
      then (s, err conflict)
      else persist random operation s

  abbrev pub insert_parsed :
      Option ℕ
      → Randomness
      → Text
      → Option OperationKind
      → Option Text
      → Option ℕ
      → Option ℕ
      → Store D
      → Store D × Result OperationRecord
  insert_parsed clock random handle (some kind) (some payload) (some ttl_ms) (some created_at) s =
      if leb (created_at + ttl_ms) max_safe_integer
      then and_then (expire clock s) (λ u s'.
        insert_new random
          (record {
            handle = handle;
            kind = kind;
            state = prepared;
            payload = payload;
            created_at = created_at;
            expires_at = created_at + ttl_ms;
          })
          s')
      else (s, err invalid_input)
  insert_parsed clock random handle _ _ _ _ s = (s, err invalid_input)

  -- `insert`, with the two readings of the clock and the random handle.
  unfoldable pub insert :
      Option ℕ
      → Option ℕ
      → Randomness
      → Text
      → JsValue
      → JsValue
      → JsValue
      → Store D
      → Store D × Result OperationRecord
  insert clock clock' random handle kind payload ttl_ms s =
      run
        (insert_parsed clock' random handle (parse_kind kind) (text_or_none payload)
          (safe_from 1 ttl_ms) clock)
        s

  unfoldable pub get : Option ℕ → Text → Option Text → Store D → Store D × Result OperationRecord
  get clock handle owner s =
      run (λ s. and_then (expire clock s) (λ u s'. (s', owned_lookup handle owner s'.records))) s

  unfoldable pub list_owned :
      Option ℕ → Option Text → Store D → Store D × Result (List OperationRecord)
  list_owned clock owner s =
      run
        (λ s. and_then (expire clock s) (λ u s'. (
          s',
          ok (
              keep (λ r. same_owner owner (codec.payload_owner r.payload))
                (map (λ e. e.operation) s'.records)),
        )))
        s

  abbrev pub moved :
      Randomness
      → OperationRecord
      → OperationState
      → Option Text
      → Store D
      → Store D × Result OperationRecord
  moved random r next none s = (s, err invalid_input)
  moved random r next (some payload) s =
      persist random (record r { state = next; payload = payload }) s

  abbrev pub transition_found :
      Randomness
      → OperationState
      → OperationState
      → JsValue
      → Result OperationRecord
      → Store D
      → Store D × Result OperationRecord
  transition_found random expected next payload (err e) s = (s, err e)
  transition_found random expected next payload (ok r) s =
      if same_state r.state expected && may_become r.state next
      then moved random r next (next_payload payload r.payload) s
      else (s, err conflict)

  unfoldable pub transition :
      Option ℕ
      → Randomness
      → Text
      → OperationState
      → OperationState
      → JsValue
      → Option Text
      → Store D
      → Store D × Result OperationRecord
  transition clock random handle expected next payload owner s =
      run
        (λ s. and_then (expire clock s) (λ u s'.
          transition_found random expected next payload (owned_lookup handle owner s'.records) s'))
        s

  abbrev pub acknowledge_found :
      Text → Result OperationRecord → Store D → Store D × Result (Unit {0})
  acknowledge_found handle (err e) s = (s, err e)
  acknowledge_found handle (ok r) s =
      if same_state r.state aborted || same_state r.state undone
      then remove handle s
      else (s, err conflict)

  unfoldable pub acknowledge : Option ℕ → Text → Store D → Store D × Result (Unit {0})
  acknowledge clock handle s =
      run
        (λ s.
          and_then (expire clock s)
            (λ u s'. acknowledge_found handle (lookup handle s'.records) s'))
        s

  unfoldable pub close : Store D → Store D × Result (Unit {0})
  close s = run (λ s. (close_key s, ok tt)) s
