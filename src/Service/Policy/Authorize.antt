-- ===== src/Service/Policy/Authorize.antt =====
-- service/service-policy.ts: the decision about one method, against what a policy promises.
use nook_bridge.Common.{
  ◌≡◌, ◌≢◌, ◌↔◌, ◌∙◌, [], ◌∷◌, refl, Bool, true, not, ◌&&◌, Option, none, some, List, Text, text_eq,
  arith, Bool-cases, inl, inr, is_some, if◌then◌else◌, OnSome, subst, sym, codes,
}
use nook_bridge.Settings.Types.{SettingsOperation, read, edit, create, delete}
use nook_bridge.Settings.Evaluator.{SettingsDecision, SettingsEvaluationContext}
use nook_bridge.Service.Policy.Profiles.{
  ServicePolicyEvaluator, has_method, method_to_settings_operation, notes_get, notes_search,
  notes_locked_note_proof, read_only_allowed_methods, read_write_no_delete_allowed_methods,
  create_read_only_service_policy, create_read_write_no_delete_service_policy,
}
use nook_bridge.Service.Policy.{
  ServicePolicyDecision, allowed, permission_denied, PolicyCandidate, inspect_policy_allowlist,
  evaluator_property, freeze_settings_context, judged, consult, authorize_in, authorize_by,
  authorize_service_method, as_candidate,
}

-- What the evaluator of a policy says about a method, where there is both.
abbrev pub Agrees :
    Option SettingsOperation → Option ServicePolicyEvaluator → SettingsEvaluationContext → Type 0
Agrees (some op) (some evaluator) ctx =
    (d : SettingsDecision) × (evaluator op ctx ≡ some d) × (d.allowed ≡ true)
Agrees _ _ ctx = Unit

-- What a policy with a list of methods and perhaps an evaluator promises about a method.
pub record Permits (list : List Text) (evaluator : Option ServicePolicyEvaluator) (method : Text)
    (ctx : SettingsEvaluationContext) : Type 0 where
  pub listed : has_method method list ≡ true
  pub proof_has_evaluator : text_eq method notes_locked_note_proof ≡ true → is_some evaluator ≡ true
  pub search_can_read : text_eq method notes_search ≡ true → has_method notes_get list ≡ true
  pub agrees : Agrees (method_to_settings_operation method) evaluator ctx

judged_iff :
    (o : Option SettingsDecision) (method : Text)
    → (judged o method ≡ allowed method)
      ↔ ((d : SettingsDecision) × (o ≡ some d) × (d.allowed ≡ true))
judged_iff none method = (λ h. cc, λ (d, e, _). cc)
judged_iff (some d) method = (λ h. (d, refl, ground arith), λ (d', e, h). ground arith)

consult_iff :
    (op : Option SettingsOperation) (evaluator : Option ServicePolicyEvaluator)
    (ctx : SettingsEvaluationContext) (method : Text)
    → (consult op evaluator ctx method ≡ allowed method) ↔ Agrees op evaluator ctx
consult_iff (some op) (some evaluator) ctx method = judged_iff (evaluator op ctx) method
consult_iff none evaluator ctx method = (λ h. tt, λ h. refl)
consult_iff (some op) none ctx method = (λ h. tt, λ h. refl)

gate_iff :
    (proof has_evaluator search can_read listed : Bool) (r : ServicePolicyDecision) (method : Text)
    → ((if proof && not has_evaluator
          then permission_denied
          else if search && not can_read
          then permission_denied
          else if listed
          then r
          else permission_denied)
        ≡ allowed method)
      ↔ ((listed ≡ true)
          × (proof ≡ true → has_evaluator ≡ true)
          × (search ≡ true → can_read ≡ true)
          × (r ≡ allowed method))
gate_iff proof has_evaluator search can_read listed r method = (
  λ h. (ground arith, λ e. ground arith, λ e. ground arith, ground arith),
  λ (l, f, g, h). ground arith,
)

authorize_in_iff :
    (list : List Text) (evaluator : Option ServicePolicyEvaluator) (method : Text)
    (ctx : SettingsEvaluationContext)
    → (authorize_in list evaluator method ctx ≡ allowed method) ↔ Permits list evaluator method ctx
authorize_in_iff list evaluator method ctx =
    let gate =
      gate_iff (text_eq method notes_locked_note_proof) (is_some evaluator)
        (text_eq method notes_search) (has_method notes_get list) (has_method method list)
        (consult (method_to_settings_operation method) evaluator ctx method) method in
    let asked = consult_iff (method_to_settings_operation method) evaluator ctx method in
    (
      λ h.
          let (l, f, g, e) = gate.0 h in
          record { listed = l; proof_has_evaluator = f; search_can_read = g; agrees = asked.0 e },
      λ p. gate.1 (p.listed, p.proof_has_evaluator, p.search_can_read, asked.1 p.agrees),
    )

authorize_by_iff :
    (o : Option (List Text)) (evaluator : Option ServicePolicyEvaluator) (method : Text)
    (ctx : SettingsEvaluationContext)
    → (authorize_by o evaluator method ctx ≡ allowed method)
      ↔ ((list : List Text) × (o ≡ some list) × Permits list evaluator method ctx)
authorize_by_iff none evaluator method ctx = (λ h. absurd (ground arith), λ (list, e, _). cc)
authorize_by_iff (some list) evaluator method ctx = (
  λ h. (list, refl, (authorize_in_iff list evaluator method ctx).0 h),
  λ (other, e, p).
      subst (OnSome (λ l. authorize_in l evaluator method ctx ≡ allowed method)) (sym e)
        ((authorize_in_iff other evaluator method ctx).1 p),
)

-- The decision, by what the inspection gives.
pub authorized_iff :
    (policy : PolicyCandidate) (method : Text) (ctx : Option SettingsEvaluationContext)
    → (authorize_service_method policy method ctx ≡ allowed method) ↔ (
        (list : List Text) × (inspect_policy_allowlist policy ≡ some list)
        × Permits list (evaluator_property policy.evaluator) method (freeze_settings_context ctx))
unfolding authorize_service_method
authorized_iff policy method ctx =
    authorize_by_iff (inspect_policy_allowlist policy) (evaluator_property policy.evaluator) method
      (freeze_settings_context ctx)

read_only_inspected :
    (evaluator : Option ServicePolicyEvaluator)
    → inspect_policy_allowlist (as_candidate (create_read_only_service_policy evaluator))
      ≡ some read_only_allowed_methods
unfolding inspect_policy_allowlist text_eq
read_only_inspected none = refl
read_only_inspected (some e) = refl

read_write_inspected :
    (evaluator : Option ServicePolicyEvaluator)
    → inspect_policy_allowlist (as_candidate (create_read_write_no_delete_service_policy evaluator))
      ≡ some read_write_no_delete_allowed_methods
unfolding inspect_policy_allowlist text_eq
read_write_inspected none = refl
read_write_inspected (some e) = refl

read_only_reads :
    (method : Text)
    → has_method method read_only_allowed_methods ≡ true
    → method_to_settings_operation method ≡ some read
unfolding has_method method_to_settings_operation
read_only_reads method h = ground arith

abbrev is_reading : Text → Bool
is_reading method = has_method method (
    notes_search
    ∷ codes "notes.status"
    ∷ codes "notes.list_notebooks"
    ∷ notes_get
    ∷ codes "notes.path_diagnostic"
    ∷ [])

read_write_spares :
    (method : Text)
    → has_method method read_write_no_delete_allowed_methods ≡ true
    → (op : SettingsOperation) × (method_to_settings_operation method ≡ some op) × (op ≢ delete)
unfolding has_method method_to_settings_operation
read_write_spares method h = elim (Bool-cases (is_reading method)) [
  | inl e ↦ (read, ground arith, λ f. cc)
  | inr e ↦ elim (Bool-cases (text_eq method (codes "notes.create"))) [
    | inl f ↦ (create, ground arith, λ g. cc)
    | inr f ↦ (edit, ground arith, λ g. cc)
  ]
]

permitted_listed :
    (policy : PolicyCandidate) (list : List Text) (method : Text)
    (ctx : Option SettingsEvaluationContext)
    → inspect_policy_allowlist policy ≡ some list
    → authorize_service_method policy method ctx ≡ allowed method
    → has_method method list ≡ true
permitted_listed policy list method ctx seen h =
    let (other, e, p) = (authorized_iff policy method ctx).0 h in
    subst (OnSome (λ l. has_method method l ≡ true)) (sym e ∙ seen) p.listed

-- The read-only policy, with any evaluator or none, allows reading operations only.
pub read_only_policy_reads :
    (evaluator : Option ServicePolicyEvaluator) (method : Text)
    (ctx : Option SettingsEvaluationContext)
    → authorize_service_method (as_candidate (create_read_only_service_policy evaluator)) method ctx
      ≡ allowed method
    → method_to_settings_operation method ≡ some read
read_only_policy_reads evaluator method ctx h =
    read_only_reads method (permitted_listed _ _ method ctx (read_only_inspected evaluator) h)

-- The policy that reads and writes, with any evaluator or none, allows settings operations only, and
-- none of them deletes.
pub read_write_policy_never_deletes :
    (evaluator : Option ServicePolicyEvaluator) (method : Text)
    (ctx : Option SettingsEvaluationContext)
    → authorize_service_method
        (as_candidate (create_read_write_no_delete_service_policy evaluator))
        method
        ctx
      ≡ allowed method
    → (op : SettingsOperation) × (method_to_settings_operation method ≡ some op) × (op ≢ delete)
read_write_policy_never_deletes evaluator method ctx h =
    read_write_spares method (permitted_listed _ _ method ctx (read_write_inspected evaluator) h)
