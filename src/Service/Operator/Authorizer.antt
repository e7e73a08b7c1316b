-- ===== src/Service/Operator/Authorizer.antt =====
-- service/operator-authorizer.ts: the decision about a request of the operator.
use nook_bridge.Common.{
  Bool, true, false, not, ◌&&◌, Option, none, some, List, [], ◌∷◌, Text, codes, text_eq,
  if◌then◌else◌, any, is_some, ◌>>=◌,
}
use nook_bridge.Common.Js.{JsValue, string, undefined}
use nook_bridge.Service.Policy.Profiles.{has_method}
use nook_bridge.Service.Operator.{
  notes_create, approve_upload, OperatorNotebookPolicy, OperatorNoteLockState,
  OperatorAuthorizationContext, OperatorPolicyDecision, deny, permission_denied, EvaluatorAnswer,
  admitting, refusing, create_operator_policy, authorize_operator_method,
}
use nook_bridge.Service.Operator.Context.{
  Dependencies, OperatorPeer, at_target, is_mutating, target_note_id,
  resolve_operator_request_lock_state, resolve_operator_request_notebook_policy,
}

abbrev pub operator_admitted_groups : List Text
operator_admitted_groups = codes "nookbridge-operators" ∷ []

abbrev pub operator_target_read_methods : List Text
operator_target_read_methods = codes "notes.get-view" ∷ codes "notes.edit-preimage" ∷ []

unfoldable pub is_target_read : Text → Bool
is_target_read method = has_method method operator_target_read_methods

unfoldable pub request_target_known :
    Dependencies → Option JsValue → OperatorPeer → Text → Option Bool
request_target_known deps none peer method = some false
request_target_known deps (some params) peer method = do
  note_id ← target_note_id deps at_target method params peer
  some (is_some note_id)

-- `groups.some((group) => OPERATOR_ADMITTED_GROUPS.includes(group))`.
unfoldable pub is_admitted : Option (List Text) → Bool
is_admitted none = false
is_admitted (some groups) = any (λ g. has_method g operator_admitted_groups) groups

abbrev pub is_locked : Option OperatorNoteLockState → Bool
is_locked none = false
is_locked (some state) = state.locked

abbrev pub is_refused : Option OperatorNotebookPolicy → Bool
is_refused none = false
is_refused (some policy) = not policy.allow

unfoldable pub evaluate_operator_request : Text → OperatorAuthorizationContext → EvaluatorAnswer
evaluate_operator_request candidate ctx =
    if not (is_admitted ctx.operator_group_membership)
    then refusing (string (codes "permission_denied"))
    else if is_mutating candidate && is_locked ctx.note_lock_state
    then refusing (string (codes "vault_locked"))
    else if is_refused ctx.notebook_policy
    then refusing (string (codes "permission_denied"))
    else admitting (string candidate) undefined

-- `peerToAuthorizationContext`, with what was resolved.
abbrev pub context_of :
    OperatorPeer
    → Option OperatorNoteLockState
    → Option OperatorNotebookPolicy
    → OperatorAuthorizationContext
context_of peer lock_state notebook_policy = record {
  operator_uid = some peer.uid;
  operator_gid = some peer.gid;
  operator_group_membership = some peer.groups;
  notebook_policy = notebook_policy;
  note_lock_state = lock_state;
}

-- Whether a mutating method passes the checks on its target and its policy; any other does.
unfoldable pub mutation_passes :
    Dependencies
    → Text
    → OperatorPeer
    → Option JsValue
    → Option OperatorNotebookPolicy
    → Option Bool
mutation_passes deps method peer request policy =
    let known = request_target_known deps request peer method in
    if not (is_mutating method)
    then some true
    else if text_eq method notes_create
    then some (is_some policy)
    else if text_eq method approve_upload
    then some true
    else (do
      is_known ← known
      some (is_known && is_some deps.read_note_lock_state && is_some policy))

unfoldable pub target_read_passes :
    Dependencies
    → Text
    → OperatorPeer
    → Option JsValue
    → Option OperatorNotebookPolicy
    → Option Bool
target_read_passes deps method peer request policy =
    let known = request_target_known deps request peer method in
    if is_target_read method
    then (do is_known ← known; some (is_known && is_some policy))
    else some true

unfoldable pub decide :
    Dependencies → Text → OperatorPeer → Option JsValue → Option OperatorPolicyDecision
decide deps method peer request = do
  lock_state ← resolve_operator_request_lock_state deps method request peer
  policy ← resolve_operator_request_notebook_policy deps method request peer
  may_mutate ← mutation_passes deps method peer request policy
  may_read ← if may_mutate then target_read_passes deps method peer request policy else some false
  some (
      if may_read
      then authorize_operator_method
          (create_operator_policy (some (λ m c. some (evaluate_operator_request m c)))) method
          (context_of peer lock_state policy)
      else deny permission_denied)

abbrev pub or_denied : Option OperatorPolicyDecision → OperatorPolicyDecision
or_denied none = deny permission_denied
or_denied (some decision) = decision

-- `createOperatorAuthorizer`: what throws is refused.
unfoldable pub authorize_operator :
    Dependencies → Text → OperatorPeer → Option JsValue → OperatorPolicyDecision
authorize_operator deps method peer request = or_denied (decide deps method peer request)
