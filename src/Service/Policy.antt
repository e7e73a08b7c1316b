-- ===== src/Service/Policy.antt =====
-- service/service-policy.ts: which methods of the RPC protocol a service answers. A method is a
-- string at run time, as a caller may name any. Freezing changes no answer.
pub mod Profiles
pub mod Authorize
pub mod Custom
pub mod Trusted
mod Tests
use nook_bridge.Common.{
  ℕ, Bool, true, false, not, ◌&&◌, ◌||◌, Option, none, some, List, [], ◌∷◌, ◌++◌, map, Text, codes,
  text_eq, leb, ◌==◌, if◌then◌else◌, length, any, keep, ◌>>=◌, ◌>>◌, check, is_some,
}
use nook_bridge.Common.Js.{JsValue, string, array, items, from_items}
use nook_bridge.Settings.Types.{SettingsOperation, read, edit, create, delete}
use nook_bridge.Settings.Evaluator.{SettingsDecision, SettingsEvaluationContext}
use nook_bridge.Service.Policy.Profiles.{
  ServicePolicyProfile, read_only, read_write_no_delete, custom, notes_search, notes_get,
  notes_delete, notes_locked_note_proof, read_only_allowed_methods,
  read_write_no_delete_allowed_methods, custom_policy_allowable_methods,
  custom_policy_max_input_length, has_method, is_allowable_custom_method, ServicePolicyEvaluator,
  ServicePolicy, method_to_settings_operation, create_read_only_service_policy,
  create_read_write_no_delete_service_policy, without_blind_search, finish_custom_service_policy,
  admit_method, read_methods, read_custom_allowlist, create_custom_service_policy, same_methods,
  methods_value, create_service_policy_from_methods,
}

-- What the checks of a policy see of any object: its flags and own keys, and its three properties.
-- `absent` is also a property that holds `undefined`, `other` one that holds no function.
pub data EvaluatorField (E : Type 0) : Type 0 where
  absent other : EvaluatorField E
  callable : E → EvaluatorField E

-- `frozen_array` is a frozen array without a prototype.
pub data AllowedField : Type 0 where
  frozen_array : List JsValue → AllowedField
  anything_else : AllowedField

pub record PolicyCandidate : Type 0 where
  pub is_frozen : Bool
  pub has_null_prototype : Bool
  pub keys : List Text
  pub profile : JsValue
  pub allowed_methods : AllowedField
  pub evaluator : EvaluatorField ServicePolicyEvaluator

abbrev pub is_callable : {E : Type 0} → EvaluatorField E → Bool
is_callable (callable e) = true
is_callable _ = false

-- Two keys, or a third that is a callable `evaluator`.
abbrev pub has_policy_keys : List Text → EvaluatorField ServicePolicyEvaluator → Bool
has_policy_keys (a ∷ b ∷ []) field = true
has_policy_keys (a ∷ b ∷ c ∷ []) field = text_eq c (codes "evaluator") && is_callable field
has_policy_keys _ field = false

unfoldable pub allowable_entries : List JsValue → Option (List Text)
allowable_entries [] = some []
allowable_entries (string entry ∷ vs) = do
  check (is_allowable_custom_method entry)
  entries ← allowable_entries vs
  some (entry ∷ entries)
allowable_entries (_ ∷ vs) = none

abbrev pub custom_allowlist : AllowedField → Option (List Text)
custom_allowlist (frozen_array vs) = allowable_entries vs
custom_allowlist anything_else = none

abbrev pub profile_of : JsValue → Option ServicePolicyProfile
profile_of (string s) =
    if text_eq s (codes "readOnly")
    then some read_only
    else if text_eq s (codes "readWriteNoDelete")
    then some read_write_no_delete
    else if text_eq s (codes "custom")
    then some custom
    else none
profile_of _ = none

abbrev pub profile_allowlist : Option ServicePolicyProfile → AllowedField → Option (List Text)
profile_allowlist (some read_only) field = some read_only_allowed_methods
profile_allowlist (some read_write_no_delete) field = some read_write_no_delete_allowed_methods
profile_allowlist (some custom) field = custom_allowlist field
profile_allowlist none field = none

unfoldable pub inspect_policy_allowlist : PolicyCandidate → Option (List Text)
inspect_policy_allowlist value =
    if value.is_frozen && value.has_null_prototype && has_policy_keys value.keys value.evaluator
    then profile_allowlist (profile_of value.profile) value.allowed_methods
    else none

abbrev pub read_policy_evaluator :
    EvaluatorField ServicePolicyEvaluator → Option ServicePolicyEvaluator
read_policy_evaluator (callable e) = some e
read_policy_evaluator _ = none

abbrev pub narrowed :
    Option (List Text)
    → Option ServicePolicyProfile
    → Option ServicePolicyEvaluator
    → Option ServicePolicy
narrowed none profile evaluator = none
narrowed (some l) (some read_only) evaluator = some (create_read_only_service_policy evaluator)
narrowed (some l) (some read_write_no_delete) evaluator =
    some (create_read_write_no_delete_service_policy evaluator)
narrowed (some l) _ evaluator = some (create_custom_service_policy (methods_value l) evaluator)

unfoldable pub narrow_service_policy : PolicyCandidate → Option ServicePolicy
narrow_service_policy value =
    narrowed (inspect_policy_allowlist value) (profile_of value.profile)
      (read_policy_evaluator value.evaluator)

-- A refusal is `permission_denied`, always.
pub data ServicePolicyDecision : Type 0 where
  allowed : Text → ServicePolicyDecision
  permission_denied : ServicePolicyDecision

-- `policy.evaluator`, and what calling it gives.
abbrev pub evaluator_property :
    EvaluatorField ServicePolicyEvaluator → Option ServicePolicyEvaluator
evaluator_property absent = none
evaluator_property other = some (λ op ctx. none)
evaluator_property (callable e) = some e

abbrev pub freeze_settings_context : Option SettingsEvaluationContext → SettingsEvaluationContext
freeze_settings_context none = record { notebook_path = none; note_title = none }
freeze_settings_context (some ctx) = ctx

abbrev pub judged : Option SettingsDecision → Text → ServicePolicyDecision
judged none method = permission_denied
judged (some d) method = if d.allowed then allowed method else permission_denied

abbrev pub consult :
    Option SettingsOperation
    → Option ServicePolicyEvaluator
    → SettingsEvaluationContext
    → Text
    → ServicePolicyDecision
consult (some op) (some evaluator) ctx method = judged (evaluator op ctx) method
consult _ _ ctx method = allowed method

abbrev pub authorize_in :
    List Text
    → Option ServicePolicyEvaluator
    → Text
    → SettingsEvaluationContext
    → ServicePolicyDecision
authorize_in allowlist evaluator method ctx =
    if text_eq method notes_locked_note_proof && not (is_some evaluator)
    then permission_denied
    else if text_eq method notes_search && not (has_method notes_get allowlist)
    then permission_denied
    else if has_method method allowlist
    then consult (method_to_settings_operation method) evaluator ctx method
    else permission_denied

abbrev pub authorize_by :
    Option (List Text)
    → Option ServicePolicyEvaluator
    → Text
    → SettingsEvaluationContext
    → ServicePolicyDecision
authorize_by none evaluator method ctx = permission_denied
authorize_by (some l) evaluator method ctx = authorize_in l evaluator method ctx

unfoldable pub authorize_service_method :
    PolicyCandidate → Text → Option SettingsEvaluationContext → ServicePolicyDecision
authorize_service_method policy method ctx =
    authorize_by (inspect_policy_allowlist policy) (evaluator_property policy.evaluator) method
      (freeze_settings_context ctx)

-- The object that a policy is, for the checks: its keys in the order of their assignment.
abbrev pub profile_name : ServicePolicyProfile → Text
profile_name read_only = codes "readOnly"
profile_name read_write_no_delete = codes "readWriteNoDelete"
profile_name custom = codes "custom"

abbrev pub policy_keys : Option ServicePolicyEvaluator → List Text
policy_keys none = codes "profile" ∷ codes "allowedMethods" ∷ []
policy_keys (some e) = codes "profile" ∷ codes "allowedMethods" ∷ codes "evaluator" ∷ []

abbrev pub evaluator_field : Option ServicePolicyEvaluator → EvaluatorField ServicePolicyEvaluator
evaluator_field none = absent
evaluator_field (some e) = callable e

abbrev pub as_candidate : ServicePolicy → PolicyCandidate
as_candidate p = record {
  is_frozen = true;
  has_null_prototype = true;
  keys = policy_keys p.evaluator;
  profile = string (profile_name p.profile);
  allowed_methods = frozen_array (map string p.allowed_methods);
  evaluator = evaluator_field p.evaluator;
}
