-- ===== src/Service/Operator/Tests.antt =====
-- service/operator-authorizer.ts: the theorems on a concrete authorizer, and some decisions.
use nook_bridge.Common.{
  ◌≡◌, ◌↔◌, refl, Bool, true, false, Option, none, some, List, [], ◌∷◌, Text, codes, text_eq,
}
use nook_bridge.Common.Js.{JsValue, object, string, field, end, property}
use nook_bridge.Service.Policy.Profiles.{has_method}
use nook_bridge.Service.Operator.{
  apply_edit, OperatorNotebookPolicy, admit, deny, vault_locked, is_operator_method,
  inspect_operator_policy, authorize_operator_method,
}
use nook_bridge.Service.Operator.Context.{
  Dependencies, OperatorPeer, Evaluate, Answer, at_lock, at_policy, is_mutating,
  request_string_field, target_note_id, resolve_operator_request_lock_state,
  resolve_operator_request_notebook_policy, settings_operation_for_method, find_denied,
}
use nook_bridge.Service.Operator.Authorizer.{
  is_target_read, request_target_known, is_admitted, evaluate_operator_request, mutation_passes,
  target_read_passes, decide, authorize_operator,
}
use nook_bridge.Service.Operator.Admits.{MayPass, authorize_operator_exact}
use nook_bridge.Service.Operator.Targets.{
  AllAllow, admitted_changes_are_unlocked, admitted_in_every_notebook,
}

abbrev operator_peer : OperatorPeer
operator_peer = record { uid = 1000; gid = 1000; groups = codes "nookbridge-operators" ∷ [] }

abbrev everything_allowed : Evaluate
everything_allowed = λ op path. some true

abbrev two_notebooks : Text → Answer (List Text)
two_notebooks = λ n. some (some (codes "Work" ∷ codes "Home" ∷ []))

abbrev locks : Text → Option Bool
locks = λ n. some (text_eq n (codes "sealed"))

-- A handle stands for the note of the same name.
abbrev dependencies : Dependencies
dependencies = record {
  resolve_handle = λ moment handle peer. some (some handle);
  resolve_operation_note_id = none;
  read_note_lock_state = some locks;
  read_note_notebook_path = none;
  read_note_notebook_paths = some two_notebooks;
  resolve_notebook_path = none;
  evaluate_notebook_policy = some everything_allowed;
}

abbrev about : Text → Option JsValue
about note = some (object (field (codes "id") (string note) end))

edit_is_admitted :
    authorize_operator dependencies apply_edit operator_peer (about (codes "n1"))
    ≡ admit apply_edit none
unfolding authorize_operator decide resolve_operator_request_lock_state
    resolve_operator_request_notebook_policy mutation_passes target_read_passes request_target_known
    target_note_id request_string_field property text_eq is_mutating has_method is_target_read
    settings_operation_for_method find_denied authorize_operator_method inspect_operator_policy
    is_operator_method evaluate_operator_request is_admitted
edit_is_admitted = refl

locked_edit_is_refused :
    authorize_operator dependencies apply_edit operator_peer (about (codes "sealed"))
    ≡ deny vault_locked
unfolding authorize_operator decide resolve_operator_request_lock_state
    resolve_operator_request_notebook_policy mutation_passes target_read_passes request_target_known
    target_note_id request_string_field property text_eq is_mutating has_method is_target_read
    settings_operation_for_method find_denied authorize_operator_method inspect_operator_policy
    is_operator_method evaluate_operator_request is_admitted
locked_edit_is_refused = refl

abbrev no_path : Option Text
no_path = none

authorize_operator_exact_example :
    (authorize_operator dependencies apply_edit operator_peer (about (codes "n1"))
      ≡ admit apply_edit no_path)
    ↔ ((apply_edit ≡ apply_edit)
        × (no_path ≡ none)
        × MayPass dependencies apply_edit operator_peer (about (codes "n1")))
authorize_operator_exact_example =
    authorize_operator_exact dependencies apply_edit operator_peer (about (codes "n1")) apply_edit
      no_path

admitted_changes_are_unlocked_example :
    (params : JsValue) × (n : Text) × (reader : Text → Option Bool)
    × (policy : OperatorNotebookPolicy) × (about (codes "n1") ≡ some params)
    × (target_note_id dependencies at_lock apply_edit params operator_peer ≡ some (some n))
    × (some locks ≡ some reader)
    × (reader n ≡ some false)
    × (resolve_operator_request_notebook_policy dependencies apply_edit
          (about (codes "n1"))
          operator_peer
        ≡ some (some policy))
    × (policy.allow ≡ true)
unfolding text_eq target_note_id
admitted_changes_are_unlocked_example =
    admitted_changes_are_unlocked dependencies apply_edit operator_peer (about (codes "n1"))
      apply_edit none (λ params. refl) refl edit_is_admitted

admitted_in_every_notebook_example :
    (params : JsValue) × (n : Text) × (paths : Option (List Text)) × (about (codes "n1")
      ≡ some params)
    × (target_note_id dependencies at_policy apply_edit params operator_peer ≡ some (some n))
    × (two_notebooks n ≡ some paths)
    × AllAllow everything_allowed (settings_operation_for_method apply_edit) paths
unfolding text_eq is_target_read has_method
admitted_in_every_notebook_example =
    admitted_in_every_notebook dependencies apply_edit operator_peer everything_allowed
      two_notebooks (about (codes "n1")) apply_edit none refl refl refl edit_is_admitted
