-- ===== src/Service/Policy/Custom.antt =====
-- service/service-policy.ts: the policies that are built from a list of methods, and what they
-- admit.
use nook_bridge.Common.{
  ◌≤◌, ◌≡◌, ◌↔◌, refl, sym, ◌∙◌, ap, subst, Bool, true, false, not, ◌&&◌, ◌||◌, Option, none, some,
  List, [], ◌∷◌, ◌++◌, map, Text, text_eq, text_eq_sound, arith, Bool-cases, inl, inr, any, keep,
  All, OnSome, All-keep, All-append, length, length-map, leb, is_some,
}
use nook_bridge.Common.Js.{string, items-from_items}
use nook_bridge.Settings.Evaluator.{SettingsEvaluationContext}
use nook_bridge.Service.Policy.Profiles.{
  ServicePolicyEvaluator, custom, has_method, is_allowable_custom_method, notes_get, notes_search,
  notes_locked_note_proof, custom_policy_max_input_length, admit_method, read_methods,
  read_custom_allowlist, without_blind_search, create_custom_service_policy, methods_value,
  method_to_settings_operation,
}
use nook_bridge.Service.Policy.{
  allowed, allowable_entries, inspect_policy_allowlist, as_candidate, evaluator_property,
  evaluator_field, freeze_settings_context, authorize_service_method,
}
use nook_bridge.Service.Policy.Authorize.{Agrees, Permits, authorized_iff}

-- What a custom policy from a list of methods promises about a method.
pub record CustomPermits (methods : List Text) (evaluator : Option ServicePolicyEvaluator)
    (method : Text) (ctx : SettingsEvaluationContext) : Type 0 where
  pub asked_for : has_method method methods ≡ true
  pub allowable : is_allowable_custom_method method ≡ true
  pub proof_has_evaluator : text_eq method notes_locked_note_proof ≡ true → is_some evaluator ≡ true
  pub search_can_read : text_eq method notes_search ≡ true → has_method notes_get methods ≡ true
  pub agrees : Agrees (method_to_settings_operation method) evaluator ctx

any-append {ℓ} :
    {A : Type ℓ} (p : A → Bool) (xs ys : List A) → any p (xs ++ ys) ≡ (any p xs || any p ys)
any-append p [] ys = refl
any-append p (x ∷ xs) ys = ground (arith, any-append p xs ys)

-- Tests that answer the same on the same method.
eq_allows : (m c : Text) (p : Text → Bool) → text_eq m c ≡ true → p m ≡ p c
eq_allows m c p h = ap p (text_eq_sound m c h)

has_method-admit :
    (clean : List Text) (c m : Text)
    → has_method m (admit_method clean c)
      ≡ (has_method m clean || (text_eq m c && is_allowable_custom_method c))
unfolding admit_method has_method
has_method-admit clean c m =
    let added = any-append (text_eq m) clean (c ∷ []) in
    elim (Bool-cases (text_eq m c)) [
      | inl e ↦ let same = eq_allows m c (λ t. any (text_eq t) clean) e in ground arith
      | inr e ↦ ground arith
    ]

abbrev ReadAs : List Text → List Text → Option (List Text) → Type 0
ReadAs clean methods none = ⊥
ReadAs clean methods (some r) =
    ((m : Text)
      → has_method m r
        ≡ (has_method m clean || (has_method m methods && is_allowable_custom_method m)))
    × (All (λ m. is_allowable_custom_method m ≡ true) clean
        → All (λ m. is_allowable_custom_method m ≡ true) r)

admit-All :
    (clean : List Text) (c : Text)
    → All (λ m. is_allowable_custom_method m ≡ true) clean
    → All (λ m. is_allowable_custom_method m ≡ true) (admit_method clean c)
unfolding admit_method
admit-All clean c h = elim (Bool-cases (is_allowable_custom_method c)) [
  | inr e ↦ rw e h
  | inl e ↦ elim (Bool-cases (has_method c clean)) [
    | inl f ↦ rw (e, f) h
    | inr f ↦
        rw (e, f) (All-append (λ m. is_allowable_custom_method m ≡ true) clean (c ∷ []) h (e, tt))
  ]
]

after_admit :
    (clean methods : List Text) (c : Text) (o : Option (List Text))
    → ReadAs (admit_method clean c) methods o
    → ReadAs clean (c ∷ methods) o
unfolding has_method
after_admit clean methods c none h = elim h [ ]
after_admit clean methods c (some r) (same, kept) = (
  λ m.
      let first = same m in
      let admitted = has_method-admit clean c m in
      elim (Bool-cases (text_eq m c)) [
        | inl e ↦ let allows = eq_allows m c is_allowable_custom_method e in ground arith
        | inr e ↦ ground arith
      ],
  λ h. kept (admit-All clean c h),
)

read_methods-ReadAs :
    (clean methods : List Text) → ReadAs clean methods (read_methods clean (map string methods))
unfolding read_methods has_method
read_methods-ReadAs clean [] = (λ m. ground arith, λ h. h)
read_methods-ReadAs clean (c ∷ methods) =
    after_admit clean methods c (read_methods (admit_method clean c) (map string methods))
      (read_methods-ReadAs (admit_method clean c) methods)

any-keep :
    (p q : Text → Bool) (xs : List Text)
    → ((x : Text) → p x ≡ true → q x ≡ true)
    → any p (keep q xs) ≡ any p xs
any-keep p q [] f = refl
any-keep p q (x ∷ xs) f =
    let rest = any-keep p q xs f in
    elim (Bool-cases (p x)) [ inl e ↦ let passes = f x e in ground arith | inr e ↦ ground arith ]

any-drop :
    (p q : Text → Bool) (xs : List Text)
    → ((x : Text) → p x ≡ true → q x ≡ false)
    → any p (keep q xs) ≡ false
any-drop p q [] f = refl
any-drop p q (x ∷ xs) f =
    let rest = any-drop p q xs f in
    elim (Bool-cases (p x)) [ inl e ↦ let stays_out = f x e in ground arith | inr e ↦ ground arith ]

-- Which methods the filter of a custom policy lets through.
has_method-without_blind_search :
    (clean : List Text) (m : Text)
    → has_method m (without_blind_search clean)
      ≡ (has_method m clean && not (text_eq m notes_search && not (has_method notes_get clean)))
unfolding has_method without_blind_search
has_method-without_blind_search clean m =
    let test : Text → Bool =
      λ t. not (text_eq t notes_search && not (has_method notes_get clean)) in
    elim (Bool-cases (test m)) [
      | inl e ↦
          let all_kept = any-keep (text_eq m) test clean (λ x f. sym (eq_allows m x test f) ∙ e) in
          ground arith
      | inr e ↦
          let dropped = any-drop (text_eq m) test clean (λ x f. sym (eq_allows m x test f) ∙ e) in
          ground arith
    ]

pub allowable_entries-map :
    (l : List Text)
    → All (λ m. is_allowable_custom_method m ≡ true) l
    → allowable_entries (map string l) ≡ some l
unfolding allowable_entries
allowable_entries-map [] h = refl
allowable_entries-map (m ∷ l) (ok, oks) = rw (ok, allowable_entries-map l oks) refl

-- The entries of a custom policy, told by what they are for.
abbrev Entries : List Text → List Text → Type 0
Entries methods l =
    ((m : Text)
      → has_method m l ≡ (
          has_method m methods
          && is_allowable_custom_method m
          && not (text_eq m notes_search && not (has_method notes_get methods))))
    × (All (λ m. is_allowable_custom_method m ≡ true) l)

read_methods-Entries :
    (methods : List Text) (o : Option (List Text))
    → ReadAs [] methods o
    → (r : List Text) × (o ≡ some r) × Entries methods (without_blind_search r)
unfolding has_method is_allowable_custom_method text_eq without_blind_search
read_methods-Entries methods none h = elim h [ ]
read_methods-Entries methods (some r) (same, kept) = (
  r,
  refl,
  (
    λ m.
        let filtered = has_method-without_blind_search r m in
        let here = same m in let get = same notes_get in ground arith,
    All-keep (λ m. is_allowable_custom_method m ≡ true) _ r (kept tt),
  ),
)

inspected :
    (l : List Text) (evaluator : Option ServicePolicyEvaluator)
    → All (λ m. is_allowable_custom_method m ≡ true) l
    → inspect_policy_allowlist
        (as_candidate (record { profile = custom; allowed_methods = l; evaluator = evaluator }))
      ≡ some l
unfolding inspect_policy_allowlist text_eq
inspected l none h = allowable_entries-map l h
inspected l (some e) h = allowable_entries-map l h

back :
    (evaluator : Option ServicePolicyEvaluator)
    → evaluator_property (evaluator_field evaluator) ≡ evaluator
back none = refl
back (some e) = refl

create_custom-Entries :
    (methods : List Text) (evaluator : Option ServicePolicyEvaluator)
    → length methods ≤ custom_policy_max_input_length
    → (l : List Text) × (create_custom_service_policy (methods_value methods) evaluator
        ≡ record { profile = custom; allowed_methods = l; evaluator = evaluator })
      × Entries methods l
unfolding create_custom_service_policy read_custom_allowlist
create_custom-Entries methods evaluator few =
    let (r, found, fit) =
      read_methods-Entries methods (read_methods [] (map string methods))
        (read_methods-ReadAs [] methods) in
    (
      without_blind_search r,
      rw (items-from_items, length-map)
          (let fits : leb (length methods) 11 ≡ true = ground arith in rw (fits, found) refl),
      fit,
    )

listed_iff :
    (methods l : List Text) (evaluator : Option ServicePolicyEvaluator) (method : Text)
    (ctx : SettingsEvaluationContext)
    → Entries methods l
    → Permits l evaluator method ctx ↔ CustomPermits methods evaluator method ctx
unfolding text_eq has_method is_allowable_custom_method
listed_iff methods l evaluator method ctx (same, _) =
    let here = same method in
    let get = same notes_get in
    (
      λ p.
          let listed = p.listed in
          record {
            asked_for = ground arith;
            allowable = ground arith;
            proof_has_evaluator = p.proof_has_evaluator;
            search_can_read = λ e. let f = p.search_can_read e in ground arith;
            agrees = p.agrees;
          },
      λ p.
          let asked = p.asked_for in
          let allows = p.allowable in
          record {
            listed = elim (Bool-cases (text_eq method notes_search)) [
              | inl e ↦ let f = p.search_can_read e in ground arith
              | inr e ↦ ground arith
            ];
            proof_has_evaluator = p.proof_has_evaluator;
            search_can_read = λ e. let f = p.search_can_read e in ground arith;
            agrees = p.agrees;
          },
    )

-- A policy built from a list of at most eleven methods allows a method exactly when the list names
-- it, it is one that custom policies may name, a proof about locked notes has an evaluator, a search
-- comes with the right to read notes on the same list, and the evaluator, where there is one and the
-- method is an operation, allows it.
pub custom_policy_exact :
    (methods : List Text) (evaluator : Option ServicePolicyEvaluator) (method : Text)
    (ctx : Option SettingsEvaluationContext)
    → length methods ≤ custom_policy_max_input_length
    → (authorize_service_method
          (as_candidate (create_custom_service_policy (methods_value methods) evaluator))
          method
          ctx
        ≡ allowed method)
      ↔ CustomPermits methods evaluator method (freeze_settings_context ctx)
custom_policy_exact methods evaluator method ctx few =
    let (l, built, fit) = create_custom-Entries methods evaluator few in
    let seen = inspected l evaluator (fit.1) in
    let here = listed_iff methods l evaluator method (freeze_settings_context ctx) fit in
    let general =
      authorized_iff
        (as_candidate (record { profile = custom; allowed_methods = l; evaluator = evaluator }))
        method ctx in
    let told : Option ServicePolicyEvaluator → Type 0 =
      λ v. Permits l v method (freeze_settings_context ctx) in
    rw built (
      λ h.
          let (other, e, p) = general.0 h in
          let q =
            subst
              (OnSome (λ k.
                Permits k (evaluator_property (evaluator_field evaluator)) method
                  (freeze_settings_context ctx)))
              (sym e ∙ seen) p in
          here.0 (subst told (back evaluator) q),
      λ p. general.1 (l, seen, subst told (sym (back evaluator)) (here.1 p)),
    )
