-- ===== src/Service/Operator/Context.antt =====
-- service/operator-authorization-context.ts: what a request of the operator is about, whether the
-- note is locked, and whether the settings allow it in the note's notebooks. The functions that the
-- authorizer is given are parameters; `none` outside is that a call throws.
use nook_bridge.Common.{
  ℕ, Bool, true, false, ◌&&◌, ◌||◌, Option, none, some, List, [], ◌∷◌, Text, codes, text_eq, leb,
  ◌==◌, if◌then◌else◌, length, all, ◌>>=◌,
}
use nook_bridge.Common.Js.{JsValue, object, string, property}
use nook_bridge.Settings.Types.{SettingsOperation, read, edit, create}
use nook_bridge.Service.Policy.Profiles.{has_method}
use nook_bridge.Service.Operator.{
  apply_edit, apply_undo, notes_create, approve_upload, OperatorNotebookPolicy,
  OperatorNoteLockState,
}

pub record OperatorPeer : Type 0 where
  pub uid : ℕ
  pub gid : ℕ
  pub groups : List Text

-- The three places of one request that resolve its target; the answers may differ, as time passes.
pub data Moment : Type 0 where
  at_lock at_policy at_target : Moment

-- `undefined` is the inner `none`.
abbrev pub Answer : Type 0 → Type 0
Answer A = Option (Option A)

-- `OperatorAuthorizerDependencies`. `readNoteLockState` answers whether the note is locked.
pub record Dependencies : Type 0 where
  pub resolve_handle : Moment → Text → OperatorPeer → Answer Text
  pub resolve_operation_note_id : Option (Moment → Text → OperatorPeer → Answer Text)
  pub read_note_lock_state : Option (Text → Option Bool)
  pub read_note_notebook_path : Option (Text → Answer Text)
  pub read_note_notebook_paths : Option (Text → Answer (List Text))
  pub resolve_notebook_path : Option (Text → Answer Text)
  pub evaluate_notebook_policy : Option (SettingsOperation → Option Text → Option Bool)

abbrev pub operator_mutating_methods : List Text
operator_mutating_methods = apply_edit ∷ apply_undo ∷ notes_create ∷ approve_upload ∷ []

unfoldable pub is_mutating : Text → Bool
is_mutating method = has_method method operator_mutating_methods

abbrev pub is_lower_hex : ℕ → Bool
is_lower_hex u = (leb 0x61 u && leb u 0x66) || (leb 0x30 u && leb u 0x39)

-- `OPERATION_HANDLE`: `op_` and 64 digits, which make 67 units.
unfoldable pub is_operation_handle : Text → Bool
is_operation_handle (o ∷ p ∷ u ∷ digits) =
    text_eq (o ∷ p ∷ u ∷ []) (codes "op_") && length digits == 64 && all is_lower_hex digits
is_operation_handle _ = false

abbrev nonempty_string : JsValue → Option Text
nonempty_string (string (c ∷ s)) = some (c ∷ s)
nonempty_string _ = none

-- Of a request, only its `params` matter.
unfoldable pub request_string_field : Text → JsValue → Option Text
request_string_field key (object fs) = nonempty_string (property key fs)
request_string_field key _ = none

abbrev pub operation_target :
    Option (Moment → Text → OperatorPeer → Answer Text)
    → Moment
    → Option Text
    → OperatorPeer
    → Answer Text
operation_target (some resolve) moment (some handle) peer =
    if is_operation_handle handle then resolve moment handle peer else some none
operation_target _ moment handle peer = some none

abbrev pub target_of :
    Dependencies → Moment → Text → JsValue → OperatorPeer → Option Text → Answer Text
target_of deps moment method params peer (some handle) = deps.resolve_handle moment handle peer
target_of deps moment method params peer none =
    if text_eq method apply_undo
    then operation_target deps.resolve_operation_note_id moment
        (request_string_field (codes "operationHandle") params) peer
    else some none

unfoldable pub target_note_id : Dependencies → Moment → Text → JsValue → OperatorPeer → Answer Text
target_note_id deps moment method params peer =
    target_of deps moment method params peer (request_string_field (codes "id") params)

abbrev pub lock_of : (Text → Option Bool) → Option Text → Answer OperatorNoteLockState
lock_of reader none = some none
lock_of reader (some note_id) = do
  locked ← reader note_id
  some (some (record { id = note_id; locked = locked }))

abbrev pub lock_read :
    Dependencies
    → Text
    → JsValue
    → OperatorPeer
    → Option (Text → Option Bool)
    → Answer OperatorNoteLockState
lock_read deps method params peer none = some none
lock_read deps method params peer (some reader) = do
  note_id ← target_note_id deps at_lock method params peer
  lock_of reader note_id

unfoldable pub resolve_operator_request_lock_state :
    Dependencies → Text → Option JsValue → OperatorPeer → Answer OperatorNoteLockState
resolve_operator_request_lock_state deps method none peer = some none
resolve_operator_request_lock_state deps method (some params) peer =
    if is_mutating method
    then lock_read deps method params peer deps.read_note_lock_state
    else some none

unfoldable pub settings_operation_for_method : Text → SettingsOperation
settings_operation_for_method method =
    if text_eq method apply_edit || text_eq method apply_undo
    then edit
    else if text_eq method notes_create
    then create
    else read

abbrev pub Evaluate : Type 0
Evaluate = SettingsOperation → Option Text → Option Bool

-- What the evaluator says about a notebook path; none is no policy.
abbrev pub judge_path : Evaluate → SettingsOperation → Option Text → Answer OperatorNotebookPolicy
judge_path evaluate op none = some none
judge_path evaluate op (some path) = do
  allow ← evaluate op (some path)
  some (some (record { notebook_path = path; allow = allow }))

abbrev pub creation_policy :
    Option (Text → Answer Text) → Evaluate → Option Text → Answer OperatorNotebookPolicy
creation_policy resolver evaluate none = do
  allow ← evaluate create none
  some (some (record { notebook_path = []; allow = allow }))
creation_policy none evaluate (some notebook_id) = some none
creation_policy (some resolve) evaluate (some notebook_id) = do
  path ← resolve notebook_id
  judge_path evaluate create path

-- `paths.find((path) => !evaluate(operation, path))`.
unfoldable pub find_denied : Evaluate → SettingsOperation → List Text → Answer Text
find_denied evaluate op [] = some none
find_denied evaluate op (path ∷ paths) =
    let rest = find_denied evaluate op paths in
    (do allow ← evaluate op (some path); if allow then rest else some (some path))

abbrev pub verdict : Text → Option Text → OperatorNotebookPolicy
verdict first none = record { notebook_path = first; allow = true }
verdict first (some refused) = record { notebook_path = refused; allow = false }

abbrev pub judge_paths :
    Evaluate → SettingsOperation → Option (List Text) → Answer OperatorNotebookPolicy
judge_paths evaluate op (some (first ∷ paths)) = do
  refused ← find_denied evaluate op (first ∷ paths)
  some (some (verdict first refused))
judge_paths evaluate op _ = some (some (record { notebook_path = []; allow = false }))

abbrev pub note_policy :
    Option (Text → Answer (List Text))
    → Option (Text → Answer Text)
    → Evaluate
    → SettingsOperation
    → Option Text
    → Answer OperatorNotebookPolicy
note_policy all_paths one_path evaluate op none = some none
note_policy (some reader) one_path evaluate op (some note_id) = do
  paths ← reader note_id
  judge_paths evaluate op paths
note_policy none none evaluate op (some note_id) = some none
note_policy none (some reader) evaluate op (some note_id) = do
  path ← reader note_id
  judge_path evaluate op path

abbrev pub policy_by :
    Dependencies → Text → JsValue → OperatorPeer → Option Evaluate → Answer OperatorNotebookPolicy
policy_by deps method params peer none = some none
policy_by deps method params peer (some evaluate) =
    if text_eq method notes_create
    then creation_policy deps.resolve_notebook_path evaluate
        (request_string_field (codes "notebookId") params)
    else (do
      note_id ← target_note_id deps at_policy method params peer
      note_policy deps.read_note_notebook_paths deps.read_note_notebook_path evaluate
          (settings_operation_for_method method) note_id)

unfoldable pub resolve_operator_request_notebook_policy :
    Dependencies → Text → Option JsValue → OperatorPeer → Answer OperatorNotebookPolicy
resolve_operator_request_notebook_policy deps method none peer = some none
resolve_operator_request_notebook_policy deps method (some params) peer =
    policy_by deps method params peer deps.evaluate_notebook_policy
