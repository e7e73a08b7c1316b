-- ===== src/Service/Policy/Profiles.antt =====
-- service/service-policy.ts: the profiles, their lists of methods, and custom lists.
use nook_bridge.Common.{
  ℕ, Bool, true, false, not, ◌&&◌, Option, none, some, List, [], ◌∷◌, ◌++◌, map, Text, codes,
  text_eq, leb, if◌then◌else◌, length, any, keep,
}
use nook_bridge.Common.Js.{JsValue, string, array, items, from_items}
use nook_bridge.Settings.Types.{SettingsOperation, read, edit, create, delete}
use nook_bridge.Settings.Evaluator.{SettingsDecision, SettingsEvaluationContext}

pub data ServicePolicyProfile : Type 0 where
  read_only read_write_no_delete custom : ServicePolicyProfile

abbrev pub notes_search : Text
notes_search = codes "notes.search"

abbrev pub notes_get : Text
notes_get = codes "notes.get"

abbrev pub notes_delete : Text
notes_delete = codes "notes.delete"

abbrev pub notes_locked_note_proof : Text
notes_locked_note_proof = codes "notes.locked_note_proof"

abbrev pub read_only_allowed_methods : List Text
read_only_allowed_methods =
    notes_search ∷ codes "notes.status" ∷ codes "notes.list_notebooks" ∷ notes_get ∷ []

abbrev pub read_write_no_delete_allowed_methods : List Text
read_write_no_delete_allowed_methods =
    notes_search
    ∷ codes "notes.status"
    ∷ codes "notes.list_notebooks"
    ∷ notes_get
    ∷ codes "notes.create"
    ∷ codes "notes.append"
    ∷ codes "notes.update"
    ∷ codes "notes.sync"
    ∷ []

abbrev pub custom_policy_allowable_methods : List Text
custom_policy_allowable_methods =
    notes_search
    ∷ codes "notes.status"
    ∷ codes "notes.list_notebooks"
    ∷ notes_get
    ∷ codes "notes.create"
    ∷ codes "notes.append"
    ∷ codes "notes.update"
    ∷ notes_delete
    ∷ notes_locked_note_proof
    ∷ codes "notes.sync"
    ∷ []

abbrev pub custom_policy_max_input_length : ℕ
custom_policy_max_input_length = 11

-- `arrayIncludes` and `arrayIndexOf ... !== -1`.
unfoldable pub has_method : Text → List Text → Bool
has_method method methods = any (text_eq method) methods

unfoldable pub is_allowable_custom_method : Text → Bool
is_allowable_custom_method value = has_method value custom_policy_allowable_methods

-- The evaluator that the caller hands over; `none` is that it throws.
abbrev pub ServicePolicyEvaluator : Type 0
ServicePolicyEvaluator = SettingsOperation → SettingsEvaluationContext → Option SettingsDecision

pub record ServicePolicy : Type 0 where
  pub profile : ServicePolicyProfile
  pub allowed_methods : List Text
  pub evaluator : Option ServicePolicyEvaluator

unfoldable pub method_to_settings_operation : Text → Option SettingsOperation
method_to_settings_operation name =
    if has_method name (
      notes_search
      ∷ codes "notes.status"
      ∷ codes "notes.list_notebooks"
      ∷ notes_get
      ∷ codes "notes.path_diagnostic"
      ∷ [])
    then some read
    else if text_eq name (codes "notes.create")
    then some create
    else if has_method name (codes "notes.append" ∷ codes "notes.update" ∷ codes "notes.sync" ∷ [])
    then some edit
    else if text_eq name notes_delete
    then some delete
    else none

abbrev pub create_read_only_service_policy : Option ServicePolicyEvaluator → ServicePolicy
create_read_only_service_policy evaluator = record {
  profile = read_only;
  allowed_methods = read_only_allowed_methods;
  evaluator = evaluator;
}

abbrev pub create_read_write_no_delete_service_policy :
    Option ServicePolicyEvaluator → ServicePolicy
create_read_write_no_delete_service_policy evaluator = record {
  profile = read_write_no_delete;
  allowed_methods = read_write_no_delete_allowed_methods;
  evaluator = evaluator;
}

-- The filter of `finishCustomServicePolicy`: a search needs the right to read notes.
unfoldable pub without_blind_search : List Text → List Text
without_blind_search clean =
    keep (λ m. not (text_eq m notes_search && not (has_method notes_get clean))) clean

abbrev pub finish_custom_service_policy : List Text → Option ServicePolicyEvaluator → ServicePolicy
finish_custom_service_policy clean evaluator = record {
  profile = custom;
  allowed_methods = without_blind_search clean;
  evaluator = evaluator;
}

-- The body of the loop of `readCustomAllowlist` for a string.
unfoldable pub admit_method : List Text → Text → List Text
admit_method clean candidate =
    if is_allowable_custom_method candidate && not (has_method candidate clean)
    then clean ++ (candidate ∷ [])
    else clean

unfoldable pub read_methods : List Text → List JsValue → Option (List Text)
read_methods clean [] = some clean
read_methods clean (string candidate ∷ vs) = read_methods (admit_method clean candidate) vs
read_methods clean (_ ∷ vs) = none

unfoldable pub read_custom_allowlist : JsValue → Option (List Text)
read_custom_allowlist (array vs) =
    if leb (length (items vs)) custom_policy_max_input_length
    then read_methods [] (items vs)
    else none
read_custom_allowlist _ = none

abbrev or_empty : Option (List Text) → List Text
or_empty none = []
or_empty (some clean) = clean

unfoldable pub create_custom_service_policy :
    JsValue → Option ServicePolicyEvaluator → ServicePolicy
create_custom_service_policy allowed_methods evaluator =
    finish_custom_service_policy (or_empty (read_custom_allowlist allowed_methods)) evaluator

unfoldable pub same_methods : List Text → List Text → Bool
same_methods [] [] = true
same_methods (a ∷ left) (b ∷ right) = text_eq a b && same_methods left right
same_methods _ _ = false

abbrev pub methods_value : List Text → JsValue
methods_value methods = array (from_items (map string methods))

unfoldable pub create_service_policy_from_methods :
    List Text → Option ServicePolicyEvaluator → ServicePolicy
create_service_policy_from_methods methods evaluator =
    if same_methods methods read_only_allowed_methods
    then create_read_only_service_policy evaluator
    else if same_methods methods read_write_no_delete_allowed_methods
    then create_read_write_no_delete_service_policy evaluator
    else create_custom_service_policy (methods_value methods) evaluator
