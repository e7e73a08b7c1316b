-- ===== src/Service/Operator/Admission.antt =====
-- service/operator-authorizer.ts: what is known of a request that the authorizer admits.
use nook_bridge.Common.{
  ◌≡◌, refl, sym, ap, ◌∙◌, Bool, true, false, ◌&&◌, Option, none, some, Text, text_eq, arith,
  if◌then◌else◌, bind-some, some_back,
}
use nook_bridge.Common.Js.{JsValue}
use nook_bridge.Service.Operator.{
  is_operator_method, OperatorNotebookPolicy, OperatorNoteLockState, OperatorAuthorizationContext,
  OperatorPolicyDecision, admit, deny, permission_denied, OperatorPolicyEvaluator, accept_answer,
  create_operator_policy, inspect_operator_policy, authorize_operator_method,
}
use nook_bridge.Service.Operator.Context.{
  Dependencies, OperatorPeer, is_mutating, resolve_operator_request_lock_state,
  resolve_operator_request_notebook_policy,
}
use nook_bridge.Service.Operator.Authorizer.{
  is_admitted, is_locked, is_refused, evaluate_operator_request, context_of, mutation_passes,
  target_read_passes, decide, authorize_operator, or_denied,
}

abbrev pub if_operator : Text → OperatorPolicyDecision → OperatorPolicyDecision
if_operator method decision = if is_operator_method method then decision else deny permission_denied

pub asks_the_evaluator :
    (f : OperatorPolicyEvaluator) (method : Text) (ctx : OperatorAuthorizationContext)
    → authorize_operator_method (create_operator_policy (some f)) method ctx
      ≡ (if_operator method (accept_answer (f method ctx)))
unfolding authorize_operator_method inspect_operator_policy text_eq
asks_the_evaluator f method ctx = refl

-- What the decision on a context tells when it admits.
pub record Clear (method : Text) (peer : OperatorPeer) (lock_state : Option OperatorNoteLockState)
    (policy : Option OperatorNotebookPolicy) : Type 0 where
  pub known_method : is_operator_method method ≡ true
  pub member : is_admitted (some peer.groups) ≡ true
  pub unlocked : (is_mutating method && is_locked lock_state) ≡ false
  pub unrefused : is_refused policy ≡ false

admits-Clear :
    (method : Text) (peer : OperatorPeer) (lock_state : Option OperatorNoteLockState)
    (policy : Option OperatorNotebookPolicy) (m : Text) (path : Option Text)
    → if_operator method (
        accept_answer (some (evaluate_operator_request method (context_of peer lock_state policy))))
      ≡ admit m path
    → Clear method peer lock_state policy × (m ≡ method) × (path ≡ none)
unfolding evaluate_operator_request text_eq
admits-Clear method peer lock_state policy m path h = (
  record {
    known_method = ground arith;
    member = ground arith;
    unlocked = ground arith;
    unrefused = ground arith;
  },
  ground arith,
  ground arith,
)

-- The last step of the decision, with what the steps before it gave.
final_step :
    (method : Text) (peer : OperatorPeer) (lock_state : Option OperatorNoteLockState)
    (policy : Option OperatorNotebookPolicy) (may_read : Bool) (m : Text) (path : Option Text)
    → (if may_read
        then authorize_operator_method
            (create_operator_policy (some (λ c x. some (evaluate_operator_request c x))))
            method
            (context_of peer lock_state policy)
        else deny permission_denied)
      ≡ admit m path
    → (may_read ≡ true) × Clear method peer lock_state policy × (m ≡ method) × (path ≡ none)
final_step method peer lock_state policy true m path h =
    let asked =
      asks_the_evaluator (λ c x. some (evaluate_operator_request c x)) method
        (context_of peer lock_state policy) in
    let (clear, same, bare) = admits-Clear method peer lock_state policy m path (sym asked ∙ h) in
    (refl, clear, same, bare)
final_step method peer lock_state policy false m path h = absurd (ground arith)

module _ (deps : Dependencies) (method : Text) (peer : OperatorPeer)
    (request : Option JsValue) where
  -- What an admission tells: what was resolved, that the checks passed, and what the decision saw.
  pub record Admitted (m : Text) (path : Option Text) : Type 0 where
    pub lock_state : Option OperatorNoteLockState
    pub policy : Option OperatorNotebookPolicy
    pub lock_resolved :
        resolve_operator_request_lock_state deps method request peer ≡ some lock_state
    pub policy_resolved :
        resolve_operator_request_notebook_policy deps method request peer ≡ some policy
    pub may_mutate : mutation_passes deps method peer request policy ≡ some true
    pub may_read : target_read_passes deps method peer request policy ≡ some true
    pub clear : Clear method peer lock_state policy
    pub same_method : m ≡ method
    pub no_path : path ≡ none

  or_denied_back :
      (o : Option OperatorPolicyDecision) (m : Text) (path : Option Text)
      → or_denied o ≡ admit m path
      → o ≡ some (admit m path)
  or_denied_back none m path h = absurd (ground arith)
  or_denied_back (some d) m path h = ap some h

  abbrev read_step : Option OperatorNotebookPolicy → Bool → Option Bool
  read_step policy may_mutate =
      if may_mutate then target_read_passes deps method peer request policy else some false

  read_step-true :
      (policy : Option OperatorNotebookPolicy) (may_mutate : Bool)
      → read_step policy may_mutate ≡ some true
      → (may_mutate ≡ true) × (target_read_passes deps method peer request policy ≡ some true)
  read_step-true policy true h = (refl, h)
  read_step-true policy false h = absurd (ground arith)

  decide-Admitted :
      (m : Text) (path : Option Text) (lock_state : Option OperatorNoteLockState)
      (policy : Option OperatorNotebookPolicy) (may_mutate may_read : Bool)
      → resolve_operator_request_lock_state deps method request peer ≡ some lock_state
      → resolve_operator_request_notebook_policy deps method request peer ≡ some policy
      → mutation_passes deps method peer request policy ≡ some may_mutate
      → read_step policy may_mutate ≡ some may_read
      → some (
          if may_read
          then authorize_operator_method
              (create_operator_policy (some (λ c x. some (evaluate_operator_request c x))))
              method
              (context_of peer lock_state policy)
          else deny permission_denied)
        ≡ some (admit m path)
      → Admitted m path
  decide-Admitted m path l p w r el ep ew er h =
      let (reads, clear, same, bare) = final_step method peer l p r m path (some_back _ _ h) in
      let (writes, passed) = read_step-true p w (er ∙ ap some reads) in
      record {
        lock_state = l;
        policy = p;
        lock_resolved = el;
        policy_resolved = ep;
        may_mutate = ew ∙ ap some writes;
        may_read = passed;
        clear = clear;
        same_method = same;
        no_path = bare;
      }

  -- A request is admitted only after every check: what the dependencies answered is known, the
  -- checks on the target and on the notebook policy passed, the peer is in the operators' group, the
  -- method is one of the operator's, a mutating method's note is not read as locked, the settings do
  -- not refuse, and the decision names the method and no path.
  pub authorize_operator-Admitted :
      (m : Text) (path : Option Text)
      → authorize_operator deps method peer request ≡ admit m path
      → Admitted m path
  unfolding authorize_operator decide
  authorize_operator-Admitted m path h =
      let done = or_denied_back (decide deps method peer request) m path h in
      let (l, el, h1) =
        bind-some (resolve_operator_request_lock_state deps method request peer) _ _ done in
      let (p, ep, h2) =
        bind-some (resolve_operator_request_notebook_policy deps method request peer) _ _ h1 in
      let (w, ew, h3) = bind-some (mutation_passes deps method peer request p) _ _ h2 in
      let (r, er, h4) = bind-some (read_step p w) _ _ h3 in
      decide-Admitted m path l p w r el ep ew er h4
