-- ===== src/Settings/Evaluator/Divergence.antt =====
-- settings/settings-evaluator.ts: `findNotebookMatch` on a path that begins with a slash. A notebook
-- title may begin with one (settings/notebook-index.ts, `isValidTitle`), and then so does its path.
use nook_bridge.Common.{
  ℕ, zero, suc, ◌-◌, ◌≡◌, refl, ◌∙◌, Bool, Option, none, some, List, ◌∷◌, Text, arith, take,
  Option-cases, inl, inr, length,
}
use nook_bridge.Settings.Types.{create, value_of}
use nook_bridge.Settings.Evaluator.{
  CompiledPattern, CompiledOverride, find_match, last_slash, notebook_loop, find_notebook_match,
  match_notebooks, matched_pattern, create_pattern, pick, evaluate,
}
use nook_bridge.Settings.Evaluator.Cascade.{loop_next}

rooted_slash : (s : Text) (from : ℕ) → (i : ℕ) × (last_slash (b'/' ∷ s) from ≡ some i)
unfolding last_slash
rooted_slash s zero = (0, refl)
rooted_slash s (suc from) = elim (Option-cases (last_slash s from)) [
  | inl e ↦ (0, ground arith)
  | inr (j, e) ↦ (suc j, ground arith)
]

module _ (list : List CompiledPattern) (s : Text)
    (quiet : (k : ℕ) → find_match list (take k (b'/' ∷ s)) ≡ none) where
  loop_diverges : (fuel end : ℕ) → notebook_loop fuel list (b'/' ∷ s) end ≡ none
  unfolding notebook_loop
  loop_diverges zero end = refl
  loop_diverges (suc fuel) end =
      let (sep, at) = rooted_slash s (end - 1) in
      loop_next list (b'/' ∷ s) fuel end sep (quiet end) at ∙ loop_diverges fuel sep

  -- On a path that begins with a slash and that no listed pattern matches, nor any front part of it,
  -- the search never ends: no fuel is enough.
  pub find_notebook_match_diverges : (fuel : ℕ) → find_notebook_match fuel list (b'/' ∷ s) ≡ none
  unfolding find_notebook_match
  find_notebook_match_diverges fuel = loop_diverges fuel (length (b'/' ∷ s))

module _ (entry : CompiledOverride) (s : Text)
    (quiet : (k : ℕ) → find_match entry.compiled_notebooks (take k (b'/' ∷ s)) ≡ none) where
  -- So a decision about `create` in a notebook whose path begins with a slash is never made, if the
  -- first override speaks about `create` and no pattern of it matches a front part of the path.
  pub evaluate_diverges :
      (fuel : ℕ) (default value : Bool) (rest : List CompiledOverride) (title : Option Text)
      → value_of entry.original create ≡ some value
      → evaluate fuel default
          (entry ∷ rest)
          create
          (record { notebook_path = some (b'/' ∷ s); note_title = title })
        ≡ none
  unfolding evaluate pick matched_pattern create_pattern match_notebooks
  evaluate_diverges fuel default value rest title h =
      ground (arith, find_notebook_match_diverges entry.compiled_notebooks s quiet fuel)
