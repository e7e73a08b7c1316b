-- ===== src/Service/Policy/Trusted.antt =====
-- service/service-policy.ts: the inspection of an object that claims to be a policy, and the decision
-- that follows from it.
use nook_bridge.Common.{◌≡◌, ◌⊎◌, true, List, [], ◌∷◌, map, Text, codes, All}
use nook_bridge.Common.Js.{JsValue, string}
use nook_bridge.Service.Policy.Profiles.{
  ServicePolicyEvaluator, read_only_allowed_methods, read_write_no_delete_allowed_methods,
  is_allowable_custom_method,
}
use nook_bridge.Service.Policy.{
  EvaluatorField, callable, AllowedField, frozen_array, PolicyCandidate,
}

-- The methods that a profile stands for: its own, or for the custom profile the entries of a frozen
-- array, each of which a custom policy may name.
pub data Offers (profile : JsValue) (field : AllowedField) (list : List Text) : Type 0 where
  reading :
      profile ≡ string (codes "readOnly")
      → list ≡ read_only_allowed_methods
      → Offers profile field list
  writing :
      profile ≡ string (codes "readWriteNoDelete")
      → list ≡ read_write_no_delete_allowed_methods
      → Offers profile field list
  choosing :
      profile ≡ string (codes "custom")
      → field ≡ frozen_array (map string list)
      → All (λ m. is_allowable_custom_method m ≡ true) list
      → Offers profile field list

-- Two own keys, or a third one that is an evaluator which can be called.
abbrev pub KeysFit : List Text → EvaluatorField ServicePolicyEvaluator → Type 0
KeysFit keys field =
    ((a : Text) × (b : Text) × (keys ≡ a ∷ b ∷ []))
    ⊎ ((a : Text) × (b : Text) × (keys ≡ a ∷ b ∷ codes "evaluator" ∷ [])
        × (e : ServicePolicyEvaluator) × (field ≡ callable e))

-- An object that is taken for a policy with some methods: frozen, without a prototype, with the keys
-- of a policy and a profile.
pub record IsTrusted (policy : PolicyCandidate) (list : List Text) : Type 0 where
  pub frozen : policy.is_frozen ≡ true
  pub bare : policy.has_null_prototype ≡ true
  pub keys_fit : KeysFit policy.keys policy.evaluator
  pub offers : Offers policy.profile policy.allowed_methods list

-- The entries of a list that is read are its strings, all allowable.
abbrev AreEntries : List JsValue → List Text → Type 0
AreEntries vs list = (vs ≡ map string list) × All (λ m. is_allowable_custom_method m ≡ true) list
