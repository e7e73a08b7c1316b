-- ===== src/Service/Operator/Targets.antt =====
-- service/operator-authorizer.ts: what an admission says about the note that a request is about.
use nook_bridge.Common.{
  ◌≡◌, refl, sym, ap, subst, ◌∙◌, Bool, true, false, not, ◌&&◌, ◌||◌, Option, none, some, List, [],
  ◌∷◌, Text, text_eq, text_eq_sound, arith, Bool-cases, Option-cases, inl, inr, is_some, codes,
  bind-some, some_back, All,
}
use nook_bridge.Common.Js.{JsValue}
use nook_bridge.Settings.Types.{SettingsOperation}
use nook_bridge.Service.Policy.Profiles.{has_method}
use nook_bridge.Service.Operator.{
  apply_edit, apply_undo, notes_create, approve_upload, OperatorNotebookPolicy,
  OperatorNoteLockState, admit,
}
use nook_bridge.Service.Operator.Context.{
  Dependencies, OperatorPeer, at_lock, at_policy, at_target, Answer, is_mutating, target_note_id,
  lock_read, resolve_operator_request_lock_state, settings_operation_for_method, Evaluate,
  find_denied, judge_paths, note_policy, policy_by, resolve_operator_request_notebook_policy,
}
use nook_bridge.Service.Operator.Authorizer.{
  is_target_read, request_target_known, is_locked, mutation_passes, target_read_passes,
  authorize_operator,
}
use nook_bridge.Service.Operator.Admission.{authorize_operator-Admitted}

-- An edit or the undoing of one.
abbrev pub is_change : Text → Bool
is_change method = text_eq method apply_edit || text_eq method apply_undo

pub change_facts :
    (method : Text)
    → is_change method ≡ true
    → (is_mutating method ≡ true)
      × (text_eq method notes_create ≡ false)
      × (text_eq method approve_upload ≡ false)
unfolding is_mutating has_method text_eq
change_facts method h = elim (Bool-cases (text_eq method apply_edit)) [
  | inl e ↦ rw (text_eq_sound method apply_edit e) (refl, refl, refl)
  | inr e ↦ rw (text_eq_sound method apply_undo (ground arith)) (refl, refl, refl)
]

pub from_some {ℓ} : {A : Type ℓ} (o : Option A) → is_some o ≡ true → (a : A) × (o ≡ some a)
from_some none h = absurd (ground arith)
from_some (some a) h = (a, refl)

allowed_by : (policy : OperatorNotebookPolicy) → not policy.allow ≡ false → policy.allow ≡ true
allowed_by policy h = ground arith

free_of :
    (mutating : Bool) (state : OperatorNoteLockState) (lock_state : Option OperatorNoteLockState)
    → mutating ≡ true
    → lock_state ≡ some state
    → (mutating && is_locked lock_state) ≡ false
    → state.locked ≡ false
free_of mutating state lock_state mutates e h = let seen = rw (mutates, e) at h in seen

module _ (deps : Dependencies) (method : Text) (peer : OperatorPeer) where
  pub known_note :
      (request : Option JsValue)
      → request_target_known deps request peer method ≡ some true
      → (params : JsValue) × (n : Text) × (request ≡ some params)
        × (target_note_id deps at_target method params peer ≡ some (some n))
  unfolding request_target_known
  known_note none h = absurd (ground arith)
  known_note (some params) h =
      let (o, found, e) = bind-some (target_note_id deps at_target method params peer) _ true h in
      elim (Option-cases o) [
        | inl nothing ↦ absurd (ground arith)
        | inr (n, this) ↦ (params, n, refl, found ∙ ap some this)
      ]

  pub mutation_facts :
      (request : Option JsValue) (policy : Option OperatorNotebookPolicy)
      → is_change method ≡ true
      → mutation_passes deps method peer request policy ≡ some true
      → (request_target_known deps request peer method ≡ some true)
        × (is_some deps.read_note_lock_state ≡ true)
        × (is_some policy ≡ true)
  unfolding mutation_passes
  mutation_facts request policy change h =
      let (mutates, no_create, no_approval) = change_facts method change in
      let (known, found, e) =
        bind-some (request_target_known deps request peer method) _ true
          (rw (mutates, no_create, no_approval) at h) in
      (ground arith, ground arith, ground arith)

  lock_seen :
      (params : JsValue) (reader : Text → Option Bool) (n : Text)
      (lock_state : Option OperatorNoteLockState)
      → is_mutating method ≡ true
      → deps.read_note_lock_state ≡ some reader
      → target_note_id deps at_lock method params peer ≡ some (some n)
      → resolve_operator_request_lock_state deps method (some params) peer ≡ some lock_state
      → (locked : Bool) × (reader n ≡ some locked)
        × (lock_state ≡ some (record { id = n; locked = locked }))
  unfolding resolve_operator_request_lock_state
  lock_seen params reader n lock_state mutates has_reader target h =
      let reading =
        subst (λ r. lock_read deps method params peer r ≡ some lock_state) has_reader
          (rw mutates at h) in
      let (locked, e, done) = bind-some (reader n) _ lock_state (rw target at reading) in
      (locked, e, sym (some_back _ _ done))

  -- An admitted edit or undo, of a request whose target stays the same while it is decided: the
  -- request names a note, the note's lock was read and says unlocked, and there is a notebook policy
  -- that allows it.
  pub admitted_changes_are_unlocked :
      (request : Option JsValue) (m : Text) (path : Option Text)
      → ((params : JsValue)
          → target_note_id deps at_lock method params peer
            ≡ target_note_id deps at_target method params peer)
      → is_change method ≡ true
      → authorize_operator deps method peer request ≡ admit m path
      → (params : JsValue) × (n : Text) × (reader : Text → Option Bool)
        × (policy : OperatorNotebookPolicy) × (request ≡ some params)
        × (target_note_id deps at_lock method params peer ≡ some (some n))
        × (deps.read_note_lock_state ≡ some reader)
        × (reader n ≡ some false)
        × (resolve_operator_request_notebook_policy deps method request peer ≡ some (some policy))
        × (policy.allow ≡ true)
  admitted_changes_are_unlocked request m path steady change h =
      let a = authorize_operator-Admitted deps method peer request m path h in
      let (known, has_reader, has_policy) = mutation_facts request a.policy change a.may_mutate in
      let (params, n, given, target) = known_note request known in
      let (reader, read) = from_some deps.read_note_lock_state has_reader in
      let (policy, told) = from_some a.policy has_policy in
      let mutates = (change_facts method change).0 in
      let there = steady params ∙ target in
      let (locked, e, lock_state) =
        lock_seen params reader n a.lock_state mutates read there (rw given at a.lock_resolved) in
      (
        params,
        n,
        reader,
        policy,
        given,
        there,
        read,
        e
            ∙ ap some (
                free_of (is_mutating method) (record { id = n; locked = locked }) a.lock_state
                  mutates lock_state a.clear.unlocked),
        a.policy_resolved ∙ ap some told,
        allowed_by policy (rw told at a.clear.unrefused),
      )

-- No path is refused when the search for one finds none.
find_denied-none :
    (evaluate : Evaluate) (op : SettingsOperation) (paths : List Text)
    → find_denied evaluate op paths ≡ some none
    → All (λ path. evaluate op (some path) ≡ some true) paths
unfolding find_denied
find_denied-none evaluate op [] h = tt
find_denied-none evaluate op (path ∷ paths) h =
    let (allow, e, done) = bind-some (evaluate op (some path)) _ none h in
    elim (Bool-cases allow) [
      | inl fine ↦ (e ∙ ap some fine, find_denied-none evaluate op paths (rw fine at done))
      | inr bad ↦ absurd (ground arith)
    ]

abbrev pub AllAllow : Evaluate → SettingsOperation → Option (List Text) → Type 0
AllAllow evaluate op none = ⊥
AllAllow evaluate op (some []) = ⊥
AllAllow evaluate op (some (path ∷ paths)) =
    All (λ p. evaluate op (some p) ≡ some true) (path ∷ paths)

judge_paths-AllAllow :
    (evaluate : Evaluate) (op : SettingsOperation) (paths : Option (List Text))
    (policy : OperatorNotebookPolicy)
    → judge_paths evaluate op paths ≡ some (some policy)
    → policy.allow ≡ true
    → AllAllow evaluate op paths
judge_paths-AllAllow evaluate op none policy h ok = absurd (ground arith)
judge_paths-AllAllow evaluate op (some []) policy h ok = absurd (ground arith)
judge_paths-AllAllow evaluate op (some (first ∷ paths)) policy h ok =
    let (refused, found, done) = bind-some (find_denied evaluate op (first ∷ paths)) _ _ h in
    elim (Option-cases refused) [
      | inl nobody ↦ find_denied-none evaluate op (first ∷ paths) (found ∙ ap some nobody)
      | inr (path, somebody) ↦ absurd (ground arith)
    ]

note_policy-AllAllow :
    (reader : Text → Answer (List Text)) (one_path : Option (Text → Answer Text))
    (evaluate : Evaluate) (op : SettingsOperation) (note_id : Option Text)
    (policy : OperatorNotebookPolicy)
    → note_policy (some reader) one_path evaluate op note_id ≡ some (some policy)
    → policy.allow ≡ true
    → (n : Text) × (paths : Option (List Text)) × (note_id ≡ some n)
      × (reader n ≡ some paths)
      × AllAllow evaluate op paths
note_policy-AllAllow reader one_path evaluate op none policy h ok = absurd (ground arith)
note_policy-AllAllow reader one_path evaluate op (some n) policy h ok =
    let (paths, e, done) = bind-some (reader n) _ _ h in
    (n, paths, refl, e, judge_paths-AllAllow evaluate op paths policy done ok)

has_policy :
    (deps : Dependencies) (method : Text) (peer : OperatorPeer) (request : Option JsValue)
    (policy : Option OperatorNotebookPolicy)
    → (is_change method || is_target_read method) ≡ true
    → mutation_passes deps method peer request policy ≡ some true
    → target_read_passes deps method peer request policy ≡ some true
    → is_some policy ≡ true
unfolding target_read_passes
has_policy deps method peer request policy about may_mutate may_read =
    elim (Bool-cases (is_change method)) [
      | inl e ↦ (mutation_facts deps method peer request policy e may_mutate).2
      | inr e ↦
          let reads : is_target_read method ≡ true = ground arith in
          let (known, found, done) =
            bind-some (request_target_known deps request peer method) _ true
              (rw reads at may_read) in
          ground arith
    ]

about_note_facts :
    (method : Text)
    → (is_change method || is_target_read method) ≡ true
    → text_eq method notes_create ≡ false
unfolding is_target_read has_method text_eq
about_note_facts method h = elim (Bool-cases (is_change method)) [
  | inl e ↦ (change_facts method e).1
  | inr e ↦ elim (Bool-cases (text_eq method (codes "notes.get-view"))) [
    | inl f ↦ rw (text_eq_sound method (codes "notes.get-view") f) refl
    | inr f ↦ rw (text_eq_sound method (codes "notes.edit-preimage") (ground arith)) refl
  ]
]

module _ (deps : Dependencies) (method : Text) (peer : OperatorPeer) (evaluate : Evaluate)
    (reader : Text → Answer (List Text)) where
  policy_seen :
      (request : Option JsValue) (policy : OperatorNotebookPolicy)
      → text_eq method notes_create ≡ false
      → deps.evaluate_notebook_policy ≡ some evaluate
      → deps.read_note_notebook_paths ≡ some reader
      → resolve_operator_request_notebook_policy deps method request peer ≡ some (some policy)
      → policy.allow ≡ true
      → (params : JsValue) × (n : Text) × (paths : Option (List Text)) × (request ≡ some params)
        × (target_note_id deps at_policy method params peer ≡ some (some n))
        × (reader n ≡ some paths)
        × AllAllow evaluate (settings_operation_for_method method) paths
  unfolding resolve_operator_request_notebook_policy
  policy_seen none policy no_create asks has_reader h ok = absurd (ground arith)
  policy_seen (some params) policy no_create asks has_reader h ok =
      let op = settings_operation_for_method method in
      let asked : policy_by deps method params peer (some evaluate) ≡ some (some policy) =
        subst (λ e. policy_by deps method params peer e ≡ some (some policy)) asks h in
      let (note_id, target, told) =
        bind-some (target_note_id deps at_policy method params peer) _ _ (rw no_create at asked) in
      let here : note_policy (some reader) deps.read_note_notebook_path evaluate op note_id
          ≡ some (some policy) =
        subst
          (λ r. note_policy r deps.read_note_notebook_path evaluate op note_id ≡ some (some policy))
          has_reader told in
      let (n, paths, this, e, everyone) =
        note_policy-AllAllow reader deps.read_note_notebook_path evaluate op note_id policy here
          ok in
      (params, n, paths, refl, target ∙ ap some this, e, everyone)

  -- An admitted edit, undo, view or preimage, where the authorizer can ask for all notebooks of a
  -- note: the note that the request named when the policy was resolved is in at least one notebook,
  -- and the settings allow the operation in every one.
  pub admitted_in_every_notebook :
      (request : Option JsValue) (m : Text) (path : Option Text)
      → deps.evaluate_notebook_policy ≡ some evaluate
      → deps.read_note_notebook_paths ≡ some reader
      → (is_change method || is_target_read method) ≡ true
      → authorize_operator deps method peer request ≡ admit m path
      → (params : JsValue) × (n : Text) × (paths : Option (List Text)) × (request ≡ some params)
        × (target_note_id deps at_policy method params peer ≡ some (some n))
        × (reader n ≡ some paths)
        × AllAllow evaluate (settings_operation_for_method method) paths
  admitted_in_every_notebook request m path asks has_reader about h =
      let a = authorize_operator-Admitted deps method peer request m path h in
      let no_create = about_note_facts method about in
      let (policy, told) =
        from_some a.policy
          (has_policy deps method peer request a.policy about a.may_mutate a.may_read) in
      policy_seen request policy no_create asks has_reader (a.policy_resolved ∙ ap some told)
        (allowed_by policy (rw told at a.clear.unrefused))
