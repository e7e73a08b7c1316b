-- ===== src/Service/Operator.antt =====
-- service/operator-methods.ts and service/operator-policy.ts: the operator's methods, and the policy
-- that asks an evaluator about each.
pub mod Context
pub mod Authorizer
pub mod Admission
pub mod Admits
pub mod Targets
mod Tests
use nook_bridge.Common.{
  ℕ, Bool, true, false, not, ◌&&◌, ◌||◌, Option, none, some, List, [], ◌∷◌, ◌++◌, Text, codes,
  text_eq, if◌then◌else◌,
}
use nook_bridge.Common.Js.{JsValue, string, undefined}
use nook_bridge.Service.Policy.Profiles.{has_method}
use nook_bridge.Service.Policy.{
  EvaluatorField, absent, other, callable, is_callable, read_policy_evaluator,
}

abbrev pub apply_edit : Text
apply_edit = codes "notes.apply-edit"

abbrev pub apply_undo : Text
apply_undo = codes "notes.apply-undo"

abbrev pub notes_create : Text
notes_create = codes "notes.create"

abbrev pub approve_upload : Text
approve_upload = codes "notes.approve-upload"

abbrev pub operator_methods : List Text
operator_methods =
    codes "notes.get-view"
    ∷ codes "notes.edit-preimage"
    ∷ apply_edit
    ∷ apply_undo
    ∷ notes_create
    ∷ codes "notes.operation-status"
    ∷ codes "notes.operation-list"
    ∷ approve_upload
    ∷ codes "notes.path_diagnostic"
    ∷ codes "notes.edit-census"
    ∷ []

abbrev pub operator_discovery_methods : List Text
operator_discovery_methods = codes "notes.browse" ∷ codes "notes.search-operator" ∷ []

unfoldable pub is_operator_method : Text → Bool
is_operator_method [] = false
is_operator_method value =
    has_method value operator_methods || has_method value operator_discovery_methods

pub record OperatorNotebookPolicy : Type 0 where
  pub notebook_path : Text
  pub allow : Bool

pub record OperatorNoteLockState : Type 0 where
  pub id : Text
  pub locked : Bool

pub record OperatorAuthorizationContext : Type 0 where
  pub operator_uid : Option ℕ
  pub operator_gid : Option ℕ
  pub operator_group_membership : Option (List Text)
  pub notebook_policy : Option OperatorNotebookPolicy
  pub note_lock_state : Option OperatorNoteLockState

pub data OperatorPolicyDenialReason : Type 0 where
  permission_denied vault_locked : OperatorPolicyDenialReason

pub data OperatorPolicyDecision : Type 0 where
  admit : Text → Option Text → OperatorPolicyDecision
  deny : OperatorPolicyDenialReason → OperatorPolicyDecision

-- What an evaluator returns, as the checks read it: `allowed` is true, with `method` and
-- `notebookPath`; or it is anything else, with `reason`; or there is no object.
pub data EvaluatorAnswer : Type 0 where
  admitting : JsValue → JsValue → EvaluatorAnswer
  refusing : JsValue → EvaluatorAnswer
  no_object : EvaluatorAnswer

-- `none` is that it throws.
abbrev pub OperatorPolicyEvaluator : Type 0
OperatorPolicyEvaluator = Text → OperatorAuthorizationContext → Option EvaluatorAnswer

-- What the checks of a policy see of any object.
pub record OperatorCandidate : Type 0 where
  pub is_frozen : Bool
  pub has_null_prototype : Bool
  pub keys : List Text
  pub profile : JsValue
  pub evaluator : EvaluatorField OperatorPolicyEvaluator

abbrev pub operator_keys : Option OperatorPolicyEvaluator → List Text
operator_keys none = codes "profile" ∷ []
operator_keys (some e) = codes "profile" ∷ codes "evaluator" ∷ []

abbrev pub operator_field : Option OperatorPolicyEvaluator → EvaluatorField OperatorPolicyEvaluator
operator_field none = absent
operator_field (some e) = callable e

abbrev pub create_operator_policy : Option OperatorPolicyEvaluator → OperatorCandidate
create_operator_policy evaluator = record {
  is_frozen = true;
  has_null_prototype = true;
  keys = operator_keys evaluator;
  profile = string (codes "operator");
  evaluator = operator_field evaluator;
}

abbrev pub is_operator_profile : JsValue → Bool
is_operator_profile (string s) = text_eq s (codes "operator")
is_operator_profile _ = false

-- A second key must be `evaluator`, and hold a function.
abbrev pub keyed_evaluator :
    List Text → EvaluatorField OperatorPolicyEvaluator → Option (Option OperatorPolicyEvaluator)
keyed_evaluator (a ∷ []) field = some none
keyed_evaluator (a ∷ b ∷ []) (callable e) =
    if text_eq b (codes "evaluator") then some (some e) else none
keyed_evaluator _ field = none

-- `none` is `null`.
unfoldable pub inspect_operator_policy : OperatorCandidate → Option (Option OperatorPolicyEvaluator)
inspect_operator_policy value =
    if value.is_frozen && value.has_null_prototype && is_operator_profile value.profile
    then keyed_evaluator value.keys value.evaluator
    else none

abbrev denied : OperatorPolicyDecision
denied = deny permission_denied

abbrev returned_path : JsValue → Option Text
returned_path (string (c ∷ s)) = some (c ∷ s)
returned_path _ = none

abbrev pub reason_of : JsValue → OperatorPolicyDenialReason
reason_of (string s) = if text_eq s (codes "vault_locked") then vault_locked else permission_denied
reason_of _ = permission_denied

abbrev pub accept_answer : Option EvaluatorAnswer → OperatorPolicyDecision
accept_answer (some (admitting (string method) path)) =
    if is_operator_method method then admit method (returned_path path) else denied
accept_answer (some (refusing reason)) = deny (reason_of reason)
accept_answer _ = denied

abbrev pub authorize_with :
    Option (Option OperatorPolicyEvaluator)
    → Text
    → OperatorAuthorizationContext
    → OperatorPolicyDecision
authorize_with (some (some evaluator)) method ctx =
    if is_operator_method method then accept_answer (evaluator method ctx) else denied
authorize_with _ method ctx = denied

unfoldable pub authorize_operator_method :
    OperatorCandidate → Text → OperatorAuthorizationContext → OperatorPolicyDecision
authorize_operator_method policy method ctx =
    authorize_with (inspect_operator_policy policy) method ctx
