-- ===== src/Settings/Evaluator/Winner.antt =====
-- settings/settings-evaluator.ts: the override that decides.
use nook_bridge.Common.{
  ℕ, ◌≤◌, ◌<◌, ◌≡◌, ◌⊎◌, inl, inr, refl, sym, ap, ◌∙◌, Bool, Option, none, some, List, [], ◌∷◌,
  arith, ◌==◌, length, Bool-cases, Option-cases, ltb, ◌||◌, ◌&&◌,
}
use nook_bridge.Settings.Types.{SettingsOperation, value_of}
use nook_bridge.Settings.Evaluator.{
  CompiledOverride, SettingsEvaluationContext, SettingsDecision, matched_pattern, Winning,
  challenge, pick, decision_of, evaluate,
}

-- `c` is not preferred to `w`: its pattern is shorter, or as long in an override that is not later.
abbrev pub NotBetter : Winning → Winning → Type 0
NotBetter c w =
    (length c.pattern < length w.pattern)
    ⊎ ((length c.pattern ≡ length w.pattern) × (c.index ≤ w.index))

module _ (fuel : ℕ) (op : SettingsOperation) (ctx : SettingsEvaluationContext) where
  -- An override speaks about the operation and applies to the context by a pattern.
  pub record Applies (entry : CompiledOverride) (w : Winning) : Type 0 where
    pub speaks : value_of entry.original op ≡ some w.value
    pub matched : matched_pattern fuel op ctx entry ≡ some (some w.pattern)
    pub indexed : entry.override_index ≡ w.index

  abbrev pub Candidate : List CompiledOverride → Winning → Type 0
  Candidate [] w = ⊥
  Candidate (entry ∷ entries) w = Applies entry w ⊎ Candidate entries w

  abbrev Chosen : Option Winning → List CompiledOverride → Option Winning → Type 0
  Chosen o entries none = (o ≡ none) × ((c : Winning) → Candidate entries c → ⊥)
  Chosen o entries (some w) =
      ((o ≡ some w) ⊎ Candidate entries w)
      × ((v : Winning) → o ≡ some v → NotBetter v w)
      × ((c : Winning) → Candidate entries c → NotBetter c w)

  challenge_cases :
      (o : Option Winning) (c : Winning)
      → (w : Winning) × (challenge o c ≡ some w)
        × ((o ≡ some w) ⊎ (c ≡ w))
        × NotBetter c w
        × ((v : Winning) → o ≡ some v → NotBetter v w)
  unfolding challenge
  challenge_cases none c = (c, refl, inr refl, ground arith, λ v e. cc)
  challenge_cases (some w) c =
      elim (Bool-cases (
        ltb (length w.pattern) (length c.pattern)
        || (length c.pattern == length w.pattern && ltb w.index c.index))) [
          | inl better ↦ (c, rw better, inr refl, ground arith, λ v e. ground arith)
          | inr worse ↦ (w, rw worse, inl refl, ground arith, λ v e. ground arith)
        ]

  NotBetter-trans : (a b c : Winning) → NotBetter a b → NotBetter b c → NotBetter a c
  NotBetter-trans a b c h k = ground arith

  skip_entry :
      (o : Option Winning) (entry : CompiledOverride) (entries : List CompiledOverride)
      (r : Option Winning)
      → ((w : Winning) → Applies entry w → ⊥)
      → Chosen o entries r
      → Chosen o (entry ∷ entries) r
  skip_entry o entry entries none quiet (e, no_one) =
      (e, λ c k. elim k [ inl a ↦ quiet c a | inr rest ↦ no_one c rest ])
  skip_entry o entry entries (some w) quiet (from, old, best) = (
    elim from [ inl e ↦ inl e | inr c ↦ inr (inr c) ],
    old,
    λ c k. elim k [ inl a ↦ absurd (quiet c a) | inr rest ↦ best c rest ],
  )

  Applies-unique :
      (entry : CompiledOverride) (c d w : Winning)
      → Applies entry c
      → Applies entry d
      → NotBetter c w
      → NotBetter d w
  Applies-unique entry c d w a b h =
      let patterns : some (some c.pattern) ≡ some (some d.pattern) = sym a.matched ∙ b.matched in
      let same : c.pattern ≡ d.pattern = cc in
      let lengths : length c.pattern ≡ length d.pattern = ap length same in
      let indices : c.index ≡ d.index = sym a.indexed ∙ b.indexed in ground arith

  add_entry :
      (o : Option Winning) (c : Winning) (entry : CompiledOverride)
      (entries : List CompiledOverride) (r : Option Winning)
      → Applies entry c
      → Chosen (challenge o c) entries r
      → Chosen o (entry ∷ entries) r
  add_entry o c entry entries none a (e, no_one) =
      let (w, won, _, _, _) = challenge_cases o c in let clash : none ≡ some w = sym e ∙ won in cc
  add_entry o c entry entries (some r) a (from, old, best) =
      let (w, won, source, c_le, o_le) = challenge_cases o c in
      let w_le : NotBetter w r = old w won in
      (
        elim from [
          | inl e ↦
              let same : w ≡ r = (let q : some w ≡ some r = sym won ∙ e in cc) in
              elim source [ inl s ↦ inl (s ∙ ap some same) | inr s ↦ inr (inl (rw (← s ∙ same) a)) ]
          | inr k ↦ inr (inr k)
        ],
        λ v e. NotBetter-trans v w r (o_le v e) w_le,
        λ d k. elim k [
          | inl b ↦ Applies-unique entry c d r a b (NotBetter-trans c w r c_le w_le)
          | inr rest ↦ best d rest
        ],
      )

  pick-Chosen :
      (o : Option Winning) (entries : List CompiledOverride) (r : Option Winning)
      → pick fuel op ctx o entries ≡ some r
      → Chosen o entries r
  unfolding pick
  pick-Chosen o [] none h = (ground arith, λ c x. x)
  pick-Chosen o [] (some w) h = (inl (ground arith), λ v e. ground arith, λ c x. absurd x)
  pick-Chosen o (entry ∷ entries) r h = elim (Option-cases (value_of entry.original op)) [
    | inl silent ↦
        skip_entry o entry entries r
          (λ w a. let q : none ≡ some w.value = sym silent ∙ a.speaks in cc)
          (pick-Chosen o entries r (ground arith))
    | inr (value, speaks) ↦ elim (Option-cases (matched_pattern fuel op ctx entry)) [
      | inl stuck ↦ absurd (ground arith)
      | inr (none, m) ↦
          skip_entry o entry entries r
            (λ w a. let q : some none ≡ some (some w.pattern) = sym m ∙ a.matched in cc)
            (pick-Chosen o entries r (ground arith))
      | inr (some pattern, m) ↦
          let c : Winning = record {
            index = entry.override_index;
            pattern = pattern;
            value = value;
          } in
          add_entry o c entry entries r (record { speaks = speaks; matched = m; indexed = refl })
            (pick-Chosen (challenge o c) entries r (ground arith))
    ]
  ]

-- A decision is the default if no override applies, and otherwise the value of an override that
-- applies and is preferred to every other one that applies: its pattern is the longest, and of
-- those as long its override is the last. The pattern and the override are reported.
pub evaluate_best :
    (fuel : ℕ) (default : Bool) (compiled : List CompiledOverride) (op : SettingsOperation)
    (ctx : SettingsEvaluationContext) (d : SettingsDecision)
    → evaluate fuel default compiled op ctx ≡ some d
    → ((d ≡ decision_of default none) × ((c : Winning) → ¬ Candidate fuel op ctx compiled c))
      ⊎ ((w : Winning) × Candidate fuel op ctx compiled w
          × (d ≡ decision_of default (some w))
          × ((c : Winning) → Candidate fuel op ctx compiled c → NotBetter c w))
unfolding evaluate
evaluate_best fuel default compiled op ctx d h =
    elim (Option-cases (pick fuel op ctx none compiled)) [
      | inl e ↦ absurd (ground arith)
      | inr (none, e) ↦ inl (ground arith, (pick-Chosen fuel op ctx none compiled none e).1)
      | inr (some w, e) ↦
          let (from, _, best) = pick-Chosen fuel op ctx none compiled (some w) e in
          inr (w, elim from [ inl clash ↦ absurd (ground arith) | inr k ↦ k ], ground arith, best)
    ]
