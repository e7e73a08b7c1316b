-- ===== src/Service/Policy/Tests.antt =====
-- service/service-policy.ts: the theorems on concrete policies, and some decisions.
use nook_bridge.Common.{◌≡◌, ◌↔◌, refl, true, Option, none, some, [], ◌∷◌, text_eq, arith}
use nook_bridge.Settings.Types.{read}
use nook_bridge.Settings.Evaluator.{decision_of}
use nook_bridge.Service.Policy.Profiles.{
  ServicePolicyEvaluator, has_method, is_allowable_custom_method, notes_search, notes_get,
  notes_delete, method_to_settings_operation, create_read_only_service_policy,
  create_read_write_no_delete_service_policy, create_custom_service_policy, methods_value,
  read_custom_allowlist, read_methods, admit_method, without_blind_search,
}
use nook_bridge.Service.Policy.{
  allowed, permission_denied, as_candidate, inspect_policy_allowlist, authorize_service_method,
  freeze_settings_context, allowable_entries,
}
use nook_bridge.Service.Policy.Authorize.{read_only_policy_reads}
use nook_bridge.Service.Policy.Custom.{CustomPermits, custom_policy_exact}

-- An evaluator that allows everything.
abbrev permissive : Option ServicePolicyEvaluator
permissive = some (λ op ctx. some (decision_of true none))

get_is_allowed :
    authorize_service_method
      (as_candidate (create_read_only_service_policy permissive))
      notes_get
      none
    ≡ allowed notes_get
unfolding authorize_service_method inspect_policy_allowlist has_method text_eq
    method_to_settings_operation
get_is_allowed = refl

get_is_allowed_with_writes :
    authorize_service_method
      (as_candidate (create_read_write_no_delete_service_policy none))
      notes_get
      none
    ≡ allowed notes_get
unfolding authorize_service_method inspect_policy_allowlist has_method text_eq
    method_to_settings_operation
get_is_allowed_with_writes = refl

-- A search without the right to read notes is dropped from the list.
blind_search_is_refused :
    authorize_service_method
      (as_candidate (create_custom_service_policy (methods_value (notes_search ∷ [])) none))
      notes_search
      none
    ≡ permission_denied
unfolding authorize_service_method inspect_policy_allowlist has_method text_eq
    method_to_settings_operation create_custom_service_policy read_custom_allowlist read_methods
    admit_method without_blind_search is_allowable_custom_method allowable_entries
blind_search_is_refused = refl

read_only_policy_reads_example : method_to_settings_operation notes_get ≡ some read
read_only_policy_reads_example = read_only_policy_reads permissive notes_get none get_is_allowed

custom_policy_exact_example :
    (authorize_service_method
        (as_candidate
          (create_custom_service_policy (methods_value (notes_get ∷ notes_delete ∷ [])) permissive))
        notes_delete
        none
      ≡ allowed notes_delete)
    ↔ CustomPermits
        (notes_get ∷ notes_delete ∷ [])
        permissive
        notes_delete
        (freeze_settings_context none)
custom_policy_exact_example =
    custom_policy_exact (notes_get ∷ notes_delete ∷ []) permissive notes_delete none (omega arith)
