-- ===== src/Sync/Types.antt =====
-- core/notesnook-sync-coordinator.ts: markers, errors, and the checks on their parts.
use nook_bridge.Common.{
  ℕ, Bool, true, false, not, ◌&&◌, ◌||◌, Option, none, some, ◌≡◌, refl, Text, codes, text_eq,
  starts_with, any, leb, ltb, ◌==◌, if◌then◌else◌, length, arith,
}
use nook_bridge.Common.Js.{JsValue, JsFields, undefined, string, object}

pub data SyncOperation : Type 0 where
  create append update delete : SyncOperation

pub data SyncOrigin : Type 0 where
  mcp unknown operator : SyncOrigin

pub record SyncPendingMarker : Type 0 where
  pub operation : SyncOperation
  pub note_id : Text
  pub sequence : ℕ
  pub origin : SyncOrigin
  pub approved : Bool

-- The codes of `NotesnookWriteErrorCode` that the coordinator throws.
pub data WriteError : Type 0 where
  invalid_input sync_required sync_failed : WriteError

pub data Result {ℓ} (A : Type ℓ) : Type ℓ where
  ok : A → Result A
  err : WriteError → Result A

infixl 5 ◌>>=◌ ◌>>◌
abbrev pub ◌>>=◌ {ℓ κ} : {A : Type ℓ} {B : Type κ} → Result A → (A → Result B) → Result B
ok a >>= k = k a
err e >>= k = err e

abbrev pub ◌>>◌ {ℓ} : {B : Type ℓ} → Result (Unit {0}) → Result B → Result B
m >> k = m >>= λ _. k

abbrev pub guard : Bool → WriteError → Result (Unit {0})
guard true e = ok tt
guard false e = err e

abbrev pub require {ℓ} : {A : Type ℓ} → Option A → WriteError → Result A
require none e = err e
require (some a) e = ok a

abbrev pub max_pending_markers : ℕ
max_pending_markers = 64

abbrev pub max_note_id_length : ℕ
max_note_id_length = 128

abbrev pub max_delay_ms : ℕ
max_delay_ms = 60000

abbrev pub pending_create_prefix : Text
pending_create_prefix = codes "nb-pending-create-"

-- `ORIGIN_RANK`.
abbrev pub rank : SyncOrigin → ℕ
rank mcp = 0
rank unknown = 1
rank operator = 2

abbrev pub is_mcp : SyncOrigin → Bool
is_mcp mcp = true
is_mcp _ = false

-- `settled` of `approvePending`, and what blocks an upload.
abbrev pub settled : SyncPendingMarker → Bool
settled m = is_mcp m.origin || m.approved

abbrev pub blocks : SyncPendingMarker → Bool
blocks m = not (settled m)

abbrev pub operation_name : SyncOperation → Text
operation_name create = codes "create"
operation_name append = codes "append"
operation_name update = codes "update"
operation_name delete = codes "delete"

abbrev pub origin_name : SyncOrigin → Text
origin_name mcp = codes "mcp"
origin_name unknown = codes "unknown"
origin_name operator = codes "operator"

abbrev named_operation : Text → Option SyncOperation
named_operation s =
    if text_eq s (codes "create")
    then some create
    else if text_eq s (codes "append")
    then some append
    else if text_eq s (codes "update")
    then some update
    else if text_eq s (codes "delete")
    then some delete
    else none

-- `isOperation`, with the operation that the value names.
unfoldable pub parse_operation : JsValue → Option SyncOperation
parse_operation (string s) = named_operation s
parse_operation _ = none

abbrev named_origin : Text → Result SyncOrigin
named_origin s =
    if text_eq s (codes "mcp")
    then ok mcp
    else if text_eq s (codes "operator")
    then ok operator
    else if text_eq s (codes "unknown")
    then ok unknown
    else err invalid_input

-- `parseOrigin`, on the value of the property `origin`.
unfoldable pub parse_origin : JsValue → Result SyncOrigin
parse_origin undefined = ok unknown
parse_origin (string s) = named_origin s
parse_origin _ = err invalid_input

unfoldable pub valid_note_id : Text → Bool
valid_note_id value =
    ltb 0 (length value) && leb (length value) max_note_id_length && not (any (λ c. c == 0) value)

unfoldable pub is_reserved_note_id : Text → Bool
unfolding starts_with
is_reserved_note_id note_id = starts_with note_id pending_create_prefix

-- `requireRecord`: an object that is no array.
unfoldable pub require_record : JsValue → Result JsFields
require_record (object fields) = ok fields
require_record _ = err invalid_input

unfoldable pub same_operation : SyncOperation → SyncOperation → Bool
same_operation create create = true
same_operation append append = true
same_operation update update = true
same_operation delete delete = true
same_operation _ _ = false

pub same_operation_sound : (a b : SyncOperation) → same_operation a b ≡ true → a ≡ b
unfolding same_operation
same_operation_sound a b h = ground arith

pub same_operation_refl : (a : SyncOperation) → same_operation a a ≡ true
unfolding same_operation
same_operation_refl a = ground arith

-- The name of an operation or origin is read back as it.
pub parse_operation-name :
    (o : SyncOperation) → parse_operation (string (operation_name o)) ≡ some o
unfolding parse_operation text_eq
parse_operation-name create = refl
parse_operation-name append = refl
parse_operation-name update = refl
parse_operation-name delete = refl

pub parse_origin-name : (o : SyncOrigin) → parse_origin (string (origin_name o)) ≡ ok o
unfolding parse_origin text_eq
parse_origin-name mcp = refl
parse_origin-name unknown = refl
parse_origin-name operator = refl
