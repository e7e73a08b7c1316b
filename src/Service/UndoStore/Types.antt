-- ===== src/Service/UndoStore/Types.antt =====
-- service/notes-undo-store.ts: the operations and their states, the records in memory, and the
-- interfaces to the file system, the cipher and the random names, which are parameters.
use nook_bridge.Common.{
  ℕ, ◌+◌, Bool, true, false, not, ◌&&◌, Option, none, some, List, [], ◌∷◌, Text, text_eq, leb, ltb,
  ◌==◌, if◌then◌else◌, keep,
}
use nook_bridge.Common.Js.{JsValue, max_safe_integer}

pub data OperationState : Type 0 where
  prepared committing committed unresolved undone aborted : OperationState

pub data OperationKind : Type 0 where
  create edit undo : OperationKind

pub record OperationRecord : Type 0 where
  pub handle : Text
  pub kind : OperationKind
  pub state : OperationState
  pub payload : Text
  pub created_at : ℕ
  pub expires_at : ℕ

-- An entry of `records`.
pub record Entry : Type 0 where
  pub operation : OperationRecord
  pub bytes : ℕ

pub record Limits : Type 0 where
  pub max_records : ℕ
  pub max_record_bytes : ℕ
  pub max_total_bytes : ℕ

-- `positive`, and the checks of the options; the key has `key_length` bytes.
unfoldable pub valid_options : Limits → ℕ → Bool
valid_options l key_length =
    key_length == 32
    && ltb 0 l.max_records
    && ltb 0 l.max_record_bytes
    && ltb 0 l.max_total_bytes
    && leb l.max_total_bytes max_safe_integer
    && leb l.max_records 10000
    && leb l.max_record_bytes 65536

-- `transitions[state].includes(next)`.
unfoldable pub may_become : OperationState → OperationState → Bool
may_become prepared committing = true
may_become prepared aborted = true
may_become committing committed = true
may_become committing unresolved = true
may_become committing aborted = true
may_become committed undone = true
may_become committed unresolved = true
may_become unresolved committed = true
may_become unresolved aborted = true
may_become _ _ = false

unfoldable pub same_state : OperationState → OperationState → Bool
same_state prepared prepared = true
same_state committing committing = true
same_state committed committed = true
same_state unresolved unresolved = true
same_state undone undone = true
same_state aborted aborted = true
same_state _ _ = false

-- `expirable.includes(state)`.
unfoldable pub is_expirable : OperationState → Bool
is_expirable prepared = true
is_expirable aborted = true
is_expirable undone = true
is_expirable committed = true
is_expirable _ = false

pub data StoreError : Type 0 where
  invalid_input conflict quota missing io closed corrupt : StoreError

pub data Result {ℓ} (A : Type ℓ) : Type ℓ where
  ok : A → Result A
  err : StoreError → Result A

-- `OperationStoreFs`: each call answers the disk afterwards and whether it returned. A read that
-- throws is `none`.
pub record OperationStoreFs (D Frame : Type 0) : Type 0 where
  pub list : D → ℕ → Option (List Text)
  pub read : D → Text → ℕ → Option Frame
  pub write_exclusive : D → Text → Frame → D × Bool
  pub sync_file : D → Text → D × Bool
  pub rename : D → Text → Text → D × Bool
  pub sync_directory : D → D × Bool
  pub remove : D → Text → D × Bool

-- The frames of the cipher: the bytes of a payload and of the JSON of a record, the frame under a
-- nonce, its length, and the JSON value of a frame that stands under a name; `none` is a frame that
-- does not open.
pub record Codec (Frame : Type 0) : Type 0 where
  pub payload_bytes : Text → ℕ
  pub plain_bytes : OperationRecord → ℕ
  pub encode : ℕ → OperationRecord → Frame
  pub frame_bytes : Frame → ℕ
  pub open_frame : Text → Frame → Option JsValue
  pub payload_owner : Text → Option Text

-- The random bytes of one write: its nonce and its temporary name.
pub record Randomness : Type 0 where
  pub nonce : ℕ
  pub temp : Text

pub record Store (D : Type 0) : Type 0 where
  pub records : List Entry
  pub is_closed : Bool
  pub disk : D

-- `Map.get`, `Map.set`, which keeps the place of a known key, and `Map.delete`.
unfoldable pub entry_of : Text → List Entry → Option Entry
entry_of handle [] = none
entry_of handle (e ∷ es) = if text_eq e.operation.handle handle then some e else entry_of handle es

unfoldable pub put : Entry → List Entry → List Entry
put new [] = new ∷ []
put new (e ∷ es) =
    let rest = put new es in
    if text_eq e.operation.handle new.operation.handle then new ∷ es else e ∷ rest

unfoldable pub drop : Text → List Entry → List Entry
drop handle es = keep (λ e. not (text_eq e.operation.handle handle)) es

unfoldable pub total_bytes : List Entry → ℕ
total_bytes [] = 0
total_bytes (e ∷ es) = e.bytes + total_bytes es
