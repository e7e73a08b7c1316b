-- ===== src/Settings/Evaluator/Cascade.antt =====
-- settings/settings-evaluator.ts: `findNotebookMatch` looks at a path and its parent paths.
use nook_bridge.Common.{
  ℕ, zero, suc, ◌-◌, ◌≤◌, ◌<◌, ◌≡◌, ◌≢◌, ◌⊎◌, inl, inr, refl, sym, ◌∙◌, Option, none, some, List,
  [], ◌∷◌, Text, arith, ◌==◌, length, take, Bool-cases, Option-cases, dec_lt,
}
use nook_bridge.Settings.Evaluator.{
  CompiledPattern, find_match, last_slash, notebook_loop, find_notebook_match,
}

abbrev pub unit_at : Text → ℕ → Option ℕ
unit_at [] i = none
unit_at (c ∷ s) zero = some c
unit_at (c ∷ s) (suc i) = unit_at s i

-- The front part of length `k` is the path or one of its parents.
abbrev pub IsBoundary : Text → ℕ → Type 0
IsBoundary path k = (k ≡ length path) ⊎ (unit_at path k ≡ some b'/')

last_slash-some :
    (s : Text) (from i : ℕ) → last_slash s from ≡ some i → (i ≤ from) × (unit_at s i ≡ some b'/')
unfolding last_slash
last_slash-some [] from i h = cc
last_slash-some (c ∷ s) zero i h = elim (Bool-cases (c == b'/')) [
  | inl e ↦ ground arith
  | inr e ↦ ground arith
]
last_slash-some (c ∷ s) (suc from) i h = elim (Option-cases (last_slash s from)) [
  | inl e ↦ elim (Bool-cases (c == b'/')) [ inl q ↦ ground arith | inr q ↦ ground arith ]
  | inr (j, e) ↦
      let ih = last_slash-some s from j e in
      let same : suc j ≡ i = ground arith in rw (← same) (omega (arith, ih.0), ih.1)
]

-- Beyond the last separator there is none.
last_slash_last :
    (s : Text) (from k : ℕ)
    → k ≤ from
    → unit_at s k ≡ some b'/'
    → (i : ℕ) × (last_slash s from ≡ some i) × (k ≤ i)
unfolding last_slash
last_slash_last [] from k h u = cc
last_slash_last (c ∷ s) zero zero h u = (0, ground arith, omega arith)
last_slash_last (c ∷ s) zero (suc k) h u = absurd (omega arith)
last_slash_last (c ∷ s) (suc from) zero h u = elim (Option-cases (last_slash s from)) [
  | inl e ↦ (0, ground arith, omega arith)
  | inr (j, e) ↦ (suc j, ground arith, omega arith)
]
last_slash_last (c ∷ s) (suc from) (suc k) h u =
    let (i, e, le) = last_slash_last s from k (omega arith) u in (suc i, ground arith, omega arith)

no_later :
    (s : Text) (from i k : ℕ)
    → last_slash s from ≡ some i
    → i < k
    → k ≤ from
    → unit_at s k ≡ some b'/'
    → ⊥
no_later s from i k at lt le u =
    let (j, e, kj) = last_slash_last s from k le u in
    let same : some i ≡ some j = sym at ∙ e in let eq : i ≡ j = cc in omega arith

no_slash :
    (s : Text) (from k : ℕ) → last_slash s from ≡ none → k ≤ from → unit_at s k ≡ some b'/' → ⊥
no_slash s from k at le u =
    let (j, e, kj) = last_slash_last s from k le u in let clash : none ≡ some j = sym at ∙ e in cc

-- What the loop answers from a front part of length `end`: a match of the longest matching front
-- part, or that none matches.
abbrev pub Answers : List CompiledPattern → Text → ℕ → Option CompiledPattern → Type 0
Answers list path end none =
    (k : ℕ) → k ≤ end → IsBoundary path k → find_match list (take k path) ≡ none
Answers list path end (some e) =
    (k : ℕ) × (k ≤ end)
    × IsBoundary path k
    × (find_match list (take k path) ≡ some e)
    × ((j : ℕ) → k < j → j ≤ end → IsBoundary path j → find_match list (take j path) ≡ none)

-- No front part with a length in the range matches.
abbrev NoneAbove : List CompiledPattern → Text → ℕ → ℕ → Type 0
NoneAbove list path low end =
    (k : ℕ) → low < k → k ≤ end → IsBoundary path k → find_match list (take k path) ≡ none

Answers-extend :
    (list : List CompiledPattern) (path : Text) (low end : ℕ) (o : Option CompiledPattern)
    → low ≤ end
    → NoneAbove list path low end
    → Answers list path low o
    → Answers list path end o
Answers-extend list path low end none h gap a =
    λ k le b. elim (dec_lt low k) [ yes above ↦ gap k above le b | no below ↦ a k (omega arith) b ]
Answers-extend list path low end (some e) h gap (k, le, b, found, longest) = (
  k,
  omega arith,
  b,
  found,
  λ j lt jle jb. elim (dec_lt low j) [
    | yes above ↦ gap j above jle jb
    | no below ↦ longest j lt (omega arith) jb
  ],
)

module _ (list : List CompiledPattern) (path : Text) where
  loop_found :
      (fuel end : ℕ) (e : CompiledPattern)
      → find_match list (take end path) ≡ some e
      → notebook_loop (suc fuel) list path end ≡ some (some e)
  unfolding notebook_loop
  loop_found fuel end e h = ground arith

  loop_stop :
      (fuel end : ℕ)
      → find_match list (take end path) ≡ none
      → last_slash path (end - 1) ≡ none
      → notebook_loop (suc fuel) list path end ≡ some none
  unfolding notebook_loop
  loop_stop fuel end h k = ground arith

  pub loop_next :
      (fuel end sep : ℕ)
      → find_match list (take end path) ≡ none
      → last_slash path (end - 1) ≡ some sep
      → notebook_loop (suc fuel) list path end ≡ notebook_loop fuel list path sep
  unfolding notebook_loop
  loop_next fuel end sep h k = ground arith

  -- Between the last separator before `end` and `end` only `end` itself is a boundary.
  gap_above :
      (low end : ℕ)
      → end ≤ length path
      → find_match list (take end path) ≡ none
      → ((k : ℕ) → low < k → k < end → unit_at path k ≢ some b'/')
      → NoneAbove list path low end
  gap_above low end le missed quiet k lt kle b = elim (dec_lt k end) [
    | yes before ↦ absurd (quiet k lt before (ground arith))
    | no not_before ↦ let same : end ≡ k = omega arith in rw (← same) missed
  ]

  none_below :
      (end : ℕ)
      → end ≤ length path
      → find_match list (take end path) ≡ none
      → last_slash path (end - 1) ≡ none
      → Answers list path end none
  none_below end le missed stop k kle b = elim (dec_lt k end) [
    | yes before ↦ absurd (no_slash path (end - 1) k stop (omega arith) (ground arith))
    | no not_before ↦ let same : end ≡ k = omega arith in rw (← same) missed
  ]

  module _ (relative : unit_at path 0 ≢ some b'/') where
    separator_below : (end sep : ℕ) → sep ≤ end - 1 → unit_at path sep ≡ some b'/' → sep < end
    separator_below zero sep le u =
        let start : sep ≡ 0 = omega arith in absurd (relative (rw start at u))
    separator_below (suc end) sep le u = omega arith

    notebook_loop-Answers :
        (fuel end : ℕ)
        → end < fuel
        → end ≤ length path
        → IsBoundary path end
        → (o : Option CompiledPattern) × (notebook_loop fuel list path end ≡ some o)
          × Answers list path end o
    notebook_loop-Answers zero end h b q = absurd (omega arith)
    notebook_loop-Answers (suc fuel) end h b q =
        elim (Option-cases (find_match list (take end path))) [
          | inr (e, found) ↦ (
            some e,
            loop_found fuel end e found,
            (end, omega arith, q, found, λ j lt le _. absurd (omega arith)),
          )
          | inl missed ↦ elim (Option-cases (last_slash path (end - 1))) [
            | inl stop ↦ (none, loop_stop fuel end missed stop, none_below end b missed stop)
            | inr (sep, at) ↦
                let (le, slash) = last_slash-some path (end - 1) sep at in
                let lower : sep < end = separator_below end sep le slash in
                let (o, runs, a) =
                  notebook_loop-Answers fuel sep (omega arith) (omega arith) (inr slash) in
                (
                  o,
                  loop_next fuel end sep missed at ∙ runs,
                  Answers-extend list path sep end o (omega arith)
                      (gap_above sep end b missed
                        (λ k lt before u. no_later path (end - 1) sep k at lt (omega arith) u))
                      a,
                )
          ]
        ]

    -- For a path that does not begin with a slash, with more fuel than its length the search ends. It
    -- answers the first pattern that matches the longest matching one among the path and its parents,
    -- or, if it answers nothing, no pattern matches the path or any parent.
    pub find_notebook_match-Answers :
        (fuel : ℕ)
        → length path < fuel
        → (o : Option CompiledPattern) × (find_notebook_match fuel list path ≡ some o)
          × Answers list path (length path) o
    unfolding find_notebook_match
    find_notebook_match-Answers fuel h =
        notebook_loop-Answers fuel (length path) h (omega arith) (inl refl)
