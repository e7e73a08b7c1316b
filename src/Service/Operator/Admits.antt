-- ===== src/Service/Operator/Admits.antt =====
-- service/operator-authorizer.ts: when exactly a request of the operator is admitted.
use nook_bridge.Common.{
  ◌≡◌, ◌⊎◌, ◌↔◌, inl, inr, refl, sym, ap, ◌∙◌, subst, Bool, true, false, ◌&&◌, Option, none, some,
  List, [], ◌∷◌, Text, codes, text_eq, text_eq_sound, arith, Bool-cases, bind-some, is_some, any,
}
use nook_bridge.Common.Js.{JsValue}
use nook_bridge.Service.Policy.Profiles.{has_method}
use nook_bridge.Service.Operator.{
  is_operator_method, apply_edit, apply_undo, notes_create, approve_upload, OperatorNotebookPolicy,
  OperatorNoteLockState, admit, accept_answer,
}
use nook_bridge.Service.Operator.Context.{
  Dependencies, OperatorPeer, at_target, is_mutating, target_note_id,
  resolve_operator_request_lock_state, resolve_operator_request_notebook_policy,
}
use nook_bridge.Service.Operator.Authorizer.{
  is_target_read, request_target_known, is_admitted, is_locked, is_refused, mutation_passes,
  target_read_passes, evaluate_operator_request, context_of, decide, authorize_operator,
}
use nook_bridge.Service.Operator.Admission.{
  authorize_operator-Admitted, asks_the_evaluator, if_operator,
}
use nook_bridge.Service.Operator.Targets.{is_change, from_some, known_note, mutation_facts}

-- What a kind of method asks of a request and of the notebook policy that was resolved for it.
pub data Meets (deps : Dependencies) (method : Text) (peer : OperatorPeer)
    (request : Option JsValue) (policy : Option OperatorNotebookPolicy) : Type 0 where
  uploads : method ≡ approve_upload → Meets deps method peer request policy
  creates :
      method ≡ notes_create
      → (p : OperatorNotebookPolicy) → policy ≡ some p
      → Meets deps method peer request policy
  changes :
      (method ≡ apply_edit) ⊎ (method ≡ apply_undo)
      → (params : JsValue) (n : Text) → request ≡ some params
      → target_note_id deps at_target method params peer ≡ some (some n)
      → (reader : Text → Option Bool) → deps.read_note_lock_state ≡ some reader
      → (p : OperatorNotebookPolicy) → policy ≡ some p
      → Meets deps method peer request policy
  views :
      (method ≡ codes "notes.get-view") ⊎ (method ≡ codes "notes.edit-preimage")
      → (params : JsValue) (n : Text) → request ≡ some params
      → target_note_id deps at_target method params peer ≡ some (some n)
      → (p : OperatorNotebookPolicy) → policy ≡ some p
      → Meets deps method peer request policy
  others :
      is_mutating method ≡ false
      → is_target_read method ≡ false
      → Meets deps method peer request policy

abbrev pub IsUnlocked : Option OperatorNoteLockState → Type 0
IsUnlocked none = Unit
IsUnlocked (some state) = state.locked ≡ false

abbrev pub IsUnrefused : Option OperatorNotebookPolicy → Type 0
IsUnrefused none = Unit
IsUnrefused (some policy) = policy.allow ≡ true

-- What a request must have to be admitted: the dependencies answer, the peer is of the operators'
-- group, the method is one of the operator's, the request meets what its method asks for, a note that
-- is to be changed is not read as locked, and the settings do not refuse.
pub record MayPass (deps : Dependencies) (method : Text) (peer : OperatorPeer)
    (request : Option JsValue) : Type 0 where
  pub lock_state : Option OperatorNoteLockState
  pub policy : Option OperatorNotebookPolicy
  pub lock_resolved : resolve_operator_request_lock_state deps method request peer ≡ some lock_state
  pub policy_resolved :
      resolve_operator_request_notebook_policy deps method request peer ≡ some policy
  pub member : any (λ g. text_eq g (codes "nookbridge-operators")) peer.groups ≡ true
  pub known_method : is_operator_method method ≡ true
  pub meets : Meets deps method peer request policy
  pub unlocked : (is_mutating method ≡ false) ⊎ IsUnlocked lock_state
  pub unrefused : IsUnrefused policy

member_iff :
    (groups : List Text)
    → is_admitted (some groups) ≡ any (λ g. text_eq g (codes "nookbridge-operators")) groups
unfolding is_admitted has_method
member_iff [] = refl
member_iff (g ∷ groups) = ground (arith, member_iff groups)

locked_iff :
    (mutating : Bool) (state : Option OperatorNoteLockState)
    → ((mutating && is_locked state) ≡ false) ↔ ((mutating ≡ false) ⊎ IsUnlocked state)
locked_iff false state = (λ h. inl refl, λ h. refl)
locked_iff true none = (λ h. inr tt, λ h. refl)
locked_iff true (some s) = (λ h. inr h, λ h. ground arith)

refused_iff :
    (policy : Option OperatorNotebookPolicy) → (is_refused policy ≡ false) ↔ IsUnrefused policy
refused_iff none = (λ h. tt, λ h. refl)
refused_iff (some p) = (λ h. ground arith, λ h. ground arith)

change_cases :
    (method : Text) → is_change method ≡ true → (method ≡ apply_edit) ⊎ (method ≡ apply_undo)
change_cases method h = elim (Bool-cases (text_eq method apply_edit)) [
  | inl e ↦ inl (text_eq_sound method apply_edit e)
  | inr e ↦ inr (text_eq_sound method apply_undo (ground arith))
]

view_cases :
    (method : Text)
    → is_target_read method ≡ true
    → (method ≡ codes "notes.get-view") ⊎ (method ≡ codes "notes.edit-preimage")
unfolding is_target_read has_method
view_cases method h = elim (Bool-cases (text_eq method (codes "notes.get-view"))) [
  | inl e ↦ inl (text_eq_sound method (codes "notes.get-view") e)
  | inr e ↦ inr (text_eq_sound method (codes "notes.edit-preimage") (ground arith))
]

-- A mutating method is one of four.
mutating_cases :
    (method : Text)
    → is_mutating method ≡ true
    → (is_change method ≡ true) ⊎ (method ≡ notes_create) ⊎ (method ≡ approve_upload)
unfolding is_mutating has_method
mutating_cases method h = elim (Bool-cases (is_change method)) [
  | inl e ↦ inl e
  | inr e ↦ elim (Bool-cases (text_eq method notes_create)) [
    | inl f ↦ inr (inl (text_eq_sound method notes_create f))
    | inr f ↦ inr (inr (text_eq_sound method approve_upload (ground arith)))
  ]
]

-- Which kinds the checks take a method for: mutating, a creation, an upload's approval, a view.
abbrev AreKinds : Text → Bool → Bool → Bool → Bool → Type 0
AreKinds method mutates creates_note approves reads =
    (is_mutating method ≡ mutates)
    × (text_eq method notes_create ≡ creates_note)
    × (text_eq method approve_upload ≡ approves)
    × (is_target_read method ≡ reads)

create_kinds : AreKinds notes_create true true false false
unfolding is_mutating is_target_read has_method text_eq
create_kinds = (refl, refl, refl, refl)

upload_kinds : AreKinds approve_upload true false true false
unfolding is_mutating is_target_read has_method text_eq
upload_kinds = (refl, refl, refl, refl)

change_kinds :
    (method : Text)
    → (method ≡ apply_edit) ⊎ (method ≡ apply_undo)
    → AreKinds method true false false false
unfolding is_mutating is_target_read has_method text_eq
change_kinds method (inl e) =
    subst (λ m. AreKinds m true false false false) (sym e) (refl, refl, refl, refl)
change_kinds method (inr e) =
    subst (λ m. AreKinds m true false false false) (sym e) (refl, refl, refl, refl)

view_kinds :
    (method : Text)
    → (method ≡ codes "notes.get-view") ⊎ (method ≡ codes "notes.edit-preimage")
    → AreKinds method false false false true
unfolding is_mutating is_target_read has_method text_eq
view_kinds method (inl e) =
    subst (λ m. AreKinds m false false false true) (sym e) (refl, refl, refl, refl)
view_kinds method (inr e) =
    subst (λ m. AreKinds m false false false true) (sym e) (refl, refl, refl, refl)

module _ (deps : Dependencies) (method : Text) (peer : OperatorPeer) (request : Option JsValue)
    (policy : Option OperatorNotebookPolicy) where
  create_has_policy :
      method ≡ notes_create
      → mutation_passes deps method peer request policy ≡ some true
      → is_some policy ≡ true
  unfolding mutation_passes
  create_has_policy e h =
      let (mutates, creates_note, _, _) =
        subst (λ m. AreKinds m true true false false) (sym e) create_kinds in
      let seen : some (is_some policy) ≡ some true = rw (mutates, creates_note) at h in ground arith

  reads_has_policy :
      is_target_read method ≡ true
      → target_read_passes deps method peer request policy ≡ some true
      → (request_target_known deps request peer method ≡ some true) × (is_some policy ≡ true)
  unfolding target_read_passes
  reads_has_policy reads h =
      let (known, found, done) =
        bind-some (request_target_known deps request peer method) _ true (rw reads at h) in
      (ground arith, ground arith)

  Meets-back :
      mutation_passes deps method peer request policy ≡ some true
      → target_read_passes deps method peer request policy ≡ some true
      → Meets deps method peer request policy
  Meets-back may_mutate may_read = elim (Bool-cases (is_mutating method)) [
    | inl mutates ↦ elim (mutating_cases method mutates) [
      | inl change ↦
          let (known, has_reader, told) =
            mutation_facts deps method peer request policy change may_mutate in
          let (params, n, given, target) = known_note deps method peer request known in
          let (reader, read) = from_some deps.read_note_lock_state has_reader in
          let (p, e) = from_some policy told in
          changes (change_cases method change) params n given target reader read p e
      | inr (inl create) ↦
          let (p, e) = from_some policy (create_has_policy create may_mutate) in creates create p e
      | inr (inr upload) ↦ uploads upload
    ]
    | inr harmless ↦ elim (Bool-cases (is_target_read method)) [
      | inl reads ↦
          let (known, told) = reads_has_policy reads may_read in
          let (params, n, given, target) = known_note deps method peer request known in
          let (p, e) = from_some policy told in
          views (view_cases method reads) params n given target p e
      | inr other ↦ others harmless other
    ]
  ]

  target_known :
      (params : JsValue) (n : Text)
      → request ≡ some params
      → target_note_id deps at_target method params peer ≡ some (some n)
      → request_target_known deps request peer method ≡ some true
  unfolding request_target_known
  target_known params n given target = rw given (rw target refl)

  abbrev Passes : Type 0
  Passes =
      (mutation_passes deps method peer request policy ≡ some true)
      × (target_read_passes deps method peer request policy ≡ some true)

  Meets-Passes : Meets deps method peer request policy → Passes
  unfolding mutation_passes target_read_passes
  Meets-Passes (uploads e) =
      let (a, b, c, d) = subst (λ m. AreKinds m true false true false) (sym e) upload_kinds in
      (rw (a, b, c) refl, rw d refl)
  Meets-Passes (creates e p told) =
      let (a, b, c, d) = subst (λ m. AreKinds m true true false false) (sym e) create_kinds in
      (rw (a, b, told) refl, rw d refl)
  Meets-Passes (changes which params n given target reader read p told) =
      let (a, b, c, d) = change_kinds method which in
      let known = target_known params n given target in
      (rw (a, b, c, known, read, told) refl, rw d refl)
  Meets-Passes (views which params n given target p told) =
      let (a, b, c, d) = view_kinds method which in
      let known = target_known params n given target in (rw a refl, rw (d, known, told) refl)
  Meets-Passes (others harmless unread) = (rw harmless refl, rw unread refl)

answer_admits :
    (method : Text) (peer : OperatorPeer) (lock_state : Option OperatorNoteLockState)
    (policy : Option OperatorNotebookPolicy)
    → is_admitted (some peer.groups) ≡ true
    → is_operator_method method ≡ true
    → (is_mutating method && is_locked lock_state) ≡ false
    → is_refused policy ≡ false
    → if_operator method (
        accept_answer (some (evaluate_operator_request method (context_of peer lock_state policy))))
      ≡ admit method none
unfolding evaluate_operator_request
answer_admits method peer lock_state policy member known free unrefused =
    rw (member, free, unrefused, known) refl

module _ (deps : Dependencies) (method : Text) (peer : OperatorPeer)
    (request : Option JsValue) where
  MayPass-admit :
      MayPass deps method peer request
      → authorize_operator deps method peer request ≡ admit method none
  unfolding authorize_operator decide
  MayPass-admit p =
      let (mutates, reads) = Meets-Passes deps method peer request p.policy p.meets in
      rw (p.lock_resolved, p.policy_resolved, mutates, reads)
        (asks_the_evaluator (λ c x. some (evaluate_operator_request c x)) method
            (context_of peer p.lock_state p.policy)
          ∙ answer_admits method peer p.lock_state p.policy (member_iff peer.groups ∙ p.member)
              p.known_method ((locked_iff (is_mutating method) p.lock_state).1 p.unlocked)
              ((refused_iff p.policy).1 p.unrefused))

  -- A request of the operator is admitted exactly when the dependencies answer, the peer is of the
  -- operators' group, the method is one of the operator's, a note that is to be changed is not read as
  -- locked, the settings do not refuse, and the request has what its method asks for: an edit or its
  -- undoing names a note, with a lock reader and a notebook policy; a view or preimage names a note,
  -- with a policy; a creation has a policy. The decision then names the method and no path.
  pub authorize_operator_exact :
      (m : Text) (path : Option Text)
      → (authorize_operator deps method peer request ≡ admit m path)
        ↔ ((m ≡ method) × (path ≡ none) × MayPass deps method peer request)
  authorize_operator_exact m path = (
    λ h.
        let a = authorize_operator-Admitted deps method peer request m path h in
        let c = a.clear in
        (
          a.same_method,
          a.no_path,
          record {
            lock_state = a.lock_state;
            policy = a.policy;
            lock_resolved = a.lock_resolved;
            policy_resolved = a.policy_resolved;
            member = sym (member_iff peer.groups) ∙ c.member;
            known_method = c.known_method;
            meets = Meets-back deps method peer request a.policy a.may_mutate a.may_read;
            unlocked = (locked_iff (is_mutating method) a.lock_state).0 c.unlocked;
            unrefused = (refused_iff a.policy).0 c.unrefused;
          },
        ),
    λ (same_method, no_path, p).
        MayPass-admit p ∙ ap (λ x. admit x none) (sym same_method) ∙ ap (admit m) (sym no_path),
  )
