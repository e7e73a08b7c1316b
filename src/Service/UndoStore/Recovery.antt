-- ===== src/Service/UndoStore/Recovery.antt =====
-- service/notes-undo-store.ts: opening the store: what is on the disk is read, checked and repaired.
use nook_bridge.Common.{
  ℕ, ◌+◌, ◌*◌, Bool, false, not, ◌&&◌, ◌||◌, Option, none, some, List, [], ◌∷◌, Text, codes,
  text_eq, leb, ltb, ◌==◌, if◌then◌else◌, length, any, all, keep,
}
use nook_bridge.Common.Js.{JsValue, JsFields, object, string, property, own_keys, safe_from}
use nook_bridge.Service.Operator.Context.{is_lower_hex, is_operation_handle}
use nook_bridge.Service.UndoStore.Types.{
  OperationState, prepared, committing, committed, unresolved, undone, aborted, OperationKind,
  OperationRecord, Entry, Limits, quota, io, corrupt, Result, ok, err, OperationStoreFs, Codec,
  Randomness, Store, same_state, put, total_bytes,
}
use nook_bridge.Service.UndoStore.{parse_kind, and_then, persist, remove, expire, close_key}

-- `TEMP`: `tmp_` and 64 digits.
unfoldable pub is_temp_name : Text → Bool
is_temp_name (t ∷ m ∷ p ∷ u ∷ digits) =
    text_eq (t ∷ m ∷ p ∷ u ∷ []) (codes "tmp_") && length digits == 64 && all is_lower_hex digits
is_temp_name _ = false

unfoldable pub parse_state : JsValue → Option OperationState
parse_state (string s) =
    if text_eq s (codes "prepared")
    then some prepared
    else if text_eq s (codes "committing")
    then some committing
    else if text_eq s (codes "committed")
    then some committed
    else if text_eq s (codes "unresolved")
    then some unresolved
    else if text_eq s (codes "undone")
    then some undone
    else if text_eq s (codes "aborted")
    then some aborted
    else none
parse_state _ = none

abbrev record_keys : List Text
record_keys =
    codes "createdAt"
    ∷ codes "expiresAt"
    ∷ codes "handle"
    ∷ codes "kind"
    ∷ codes "payload"
    ∷ codes "state"
    ∷ []

abbrev is_text : Text → JsValue → Bool
is_text expected (string s) = text_eq s expected
is_text expected _ = false

abbrev pub payload_of : JsValue → Option Text
payload_of (string s) = some s
payload_of _ = none

abbrev checked :
    Text
    → Option OperationKind
    → Option OperationState
    → Option Text
    → Option ℕ
    → Option ℕ
    → Option OperationRecord
checked handle (some kind) (some state) (some payload) (some created_at) (some expires_at) =
    if ltb created_at expires_at
    then some (record {
      handle = handle;
      kind = kind;
      state = state;
      payload = payload;
      created_at = created_at;
      expires_at = expires_at;
    })
    else none
checked handle _ _ _ _ _ = none

abbrev record_of : Text → JsFields → Option OperationRecord
record_of handle fs =
    if length (own_keys fs) == 6
      && all (λ key. any (text_eq key) (own_keys fs)) record_keys
      && is_text handle (property (codes "handle") fs)
    then checked handle (parse_kind (property (codes "kind") fs))
        (parse_state (property (codes "state") fs)) (payload_of (property (codes "payload") fs))
        (safe_from 0 (property (codes "createdAt") fs))
        (safe_from 1 (property (codes "expiresAt") fs))
    else none

-- `decode`, after the frame is opened.
unfoldable pub decode : Text → Option JsValue → Option OperationRecord
decode handle (some (object fs)) = record_of handle fs
decode handle _ = none

unfoldable pub has_repeated : List Text → Bool
has_repeated [] = false
has_repeated (n ∷ names) = any (text_eq n) names || has_repeated names

module _ {D Frame : Type 0} (fs : OperationStoreFs D Frame) (codec : Codec Frame)
    (limits : Limits) where
  abbrev pub add_decoded : ℕ → Option OperationRecord → Store D → Store D × Result (Unit {0})
  add_decoded bytes none s = (s, err corrupt)
  add_decoded bytes (some r) s =
      (record s { records = put (record { operation = r; bytes = bytes }) s.records }, ok tt)

  abbrev pub add_frame : Text → ℕ → Option Frame → Store D → Store D × Result (Unit {0})
  add_frame name recovered none s = (close_key s, err io)
  add_frame name recovered (some frame) s =
      let bytes = codec.frame_bytes frame in
      if ltb limits.max_record_bytes bytes
        || ltb limits.max_total_bytes (recovered + bytes)
        || leb limits.max_records (length s.records)
      then (s, err quota)
      else add_decoded bytes (decode name (codec.open_frame name frame)) s

  abbrev pub bytes_of : Option Frame → ℕ
  bytes_of none = 0
  bytes_of (some frame) = codec.frame_bytes frame

  -- The loop over the names of records, with the bytes that are recovered so far.
  unfoldable pub read_records : ℕ → List Text → Store D → Store D × Result (Unit {0})
  read_records recovered [] s = (s, ok tt)
  read_records recovered (name ∷ names) s =
      let frame = fs.read s.disk name limits.max_record_bytes in
      and_then (add_frame name recovered frame s)
        (λ u s'. read_records (recovered + bytes_of frame) names s')

  unfoldable pub remove_all : List Text → Store D → Store D × Result (Unit {0})
  remove_all [] s = (s, ok tt)
  remove_all (name ∷ names) s =
      and_then (remove fs codec limits name s) (λ u s'. remove_all names s')

  -- The loop that leaves no write in doubt; `random` gives the random bytes of a record's write.
  unfoldable pub settle_each :
      (Text → Randomness) → List Entry → Store D → Store D × Result (Unit {0})
  settle_each random [] s = (s, ok tt)
  settle_each random (e ∷ es) s =
      let rest = settle_each random es in
      if same_state e.operation.state committing
      then and_then
          (persist fs codec limits (random e.operation.handle)
            (record e.operation { state = unresolved }) s)
          (λ u s'. rest s')
      else rest s

  abbrev pub recheck : Store D → Store D × Result (Unit {0})
  recheck s =
      if ltb limits.max_records (length s.records)
        || ltb limits.max_total_bytes (total_bytes s.records)
      then (s, err quota)
      else (s, ok tt)

  -- The steps of the opening: the last one first.
  unfoldable pub settle_and_expire :
      Option ℕ → (Text → Randomness) → Store D → Store D × Result (Unit {0})
  settle_and_expire clock random s =
      and_then (settle_each random s.records s) (λ u s'. expire fs codec limits clock s')

  unfoldable pub clean_up :
      Option ℕ → (Text → Randomness) → List Text → Store D → Store D × Result (Unit {0})
  clean_up clock random names s =
      and_then (remove_all (keep is_temp_name names) s) (λ u s'. settle_and_expire clock random s')

  unfoldable pub check_again :
      Option ℕ → (Text → Randomness) → List Text → Store D → Store D × Result (Unit {0})
  check_again clock random names s = and_then (recheck s) (λ u s'. clean_up clock random names s')

  unfoldable pub read_in :
      Option ℕ → (Text → Randomness) → List Text → Store D → Store D × Result (Unit {0})
  read_in clock random names s =
      and_then (read_records 0 (keep is_operation_handle names) s)
        (λ u s'. check_again clock random names s')

  abbrev pub has_strangers : List Text → Bool
  has_strangers names =
      has_repeated names || any (λ n. not (is_operation_handle n) && not (is_temp_name n)) names

  abbrev pub open_names :
      Option ℕ → (Text → Randomness) → Option (List Text) → Store D → Store D × Result (Unit {0})
  open_names clock random none s = (close_key s, err io)
  open_names clock random (some names) s =
      if ltb (limits.max_records * 2 + 1) (length names)
      then (s, err quota)
      else if has_strangers names
      then (s, err corrupt)
      else read_in clock random names s

  -- A failure closes the store.
  abbrev pub or_closed : Store D × Result (Unit {0}) → Store D × Result (Unit {0})
  or_closed (s, ok u) = (s, ok u)
  or_closed (s, err e) = (close_key s, err e)

  abbrev pub empty : D → Store D
  empty disk = record { records = []; is_closed = false; disk = disk }

  -- `createNotesUndoStore`, after the checks of its options.
  unfoldable pub open_store : Option ℕ → (Text → Randomness) → D → Store D × Result (Unit {0})
  open_store clock random disk =
      or_closed (open_names clock random (fs.list disk (limits.max_records * 2 + 2)) (empty disk))
