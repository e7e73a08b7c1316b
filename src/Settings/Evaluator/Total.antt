-- ===== src/Settings/Evaluator/Total.antt =====
-- settings/settings-evaluator.ts: decisions about paths that do not begin with a slash.
use nook_bridge.Common.{
  ℕ, ◌<◌, ◌≡◌, ◌≢◌, refl, Bool, Option, none, some, List, [], ◌∷◌, Text, arith, length,
  Option-cases, inl, inr,
}
use nook_bridge.Settings.Types.{SettingsOperation, create, value_of}
use nook_bridge.Settings.Evaluator.{
  CompiledOverride, SettingsEvaluationContext, SettingsDecision, match_notebooks, match_notes,
  matched_pattern, create_pattern, or_else, Winning, consider, pick, decision_of, evaluate,
  original_of,
}
use nook_bridge.Settings.Evaluator.Cascade.{unit_at, find_notebook_match-Answers}

-- The context names no notebook, or one whose path does not begin with a slash and is shorter than
-- the fuel.
abbrev pub IsRelative : ℕ → Option Text → Type 0
IsRelative fuel none = Unit
IsRelative fuel (some path) = (unit_at path 0 ≢ some b'/') × (length path < fuel)

match_notebooks_total :
    (fuel : ℕ) (entry : CompiledOverride) (path : Option Text)
    → IsRelative fuel path
    → (m : Option Text) × (match_notebooks fuel entry path ≡ some m)
unfolding match_notebooks
match_notebooks_total fuel entry none h = (_, refl)
match_notebooks_total fuel entry (some path) (rel, enough) =
    let (o, found, _) = find_notebook_match-Answers entry.compiled_notebooks path rel fuel enough in
    (original_of o, rw found)

create_pattern_total :
    (fuel : ℕ) (entry : CompiledOverride) (path : Option Text)
    → IsRelative fuel path
    → (m : Option Text) × (create_pattern fuel entry path ≡ some m)
unfolding create_pattern
create_pattern_total fuel entry none h = (_, refl)
create_pattern_total fuel entry (some path) h = match_notebooks_total fuel entry (some path) h

or_else_total :
    (notes : Option Text) (rest : Option (Option Text))
    → (m : Option Text) × (rest ≡ some m)
    → (m : Option Text) × (or_else notes rest ≡ some m)
or_else_total none rest h = h
or_else_total (some pattern) rest h = (some pattern, refl)

matched_pattern_total :
    (fuel : ℕ) (op : SettingsOperation) (ctx : SettingsEvaluationContext) (entry : CompiledOverride)
    → IsRelative fuel ctx.notebook_path
    → (m : Option Text) × (matched_pattern fuel op ctx entry ≡ some m)
unfolding matched_pattern
matched_pattern_total fuel create ctx entry h = create_pattern_total fuel entry ctx.notebook_path h
matched_pattern_total fuel op ctx entry h =
    or_else_total (match_notes entry ctx.notebook_path ctx.note_title) _
      (match_notebooks_total fuel entry ctx.notebook_path h)

module _ (fuel : ℕ) (op : SettingsOperation) (ctx : SettingsEvaluationContext)
    (h : IsRelative fuel ctx.notebook_path) where
  pick_total :
      (w : Option Winning) (entries : List CompiledOverride)
      → (r : Option Winning) × (pick fuel op ctx w entries ≡ some r)
  unfolding pick
  pick_total w [] = (w, refl)
  pick_total w (entry ∷ entries) =
      let (m, found) = matched_pattern_total fuel op ctx entry h in
      elim (Option-cases (value_of entry.original op)) [
        | inl silent ↦ let (r, e) = pick_total w entries in (r, ground arith)
        | inr (value, speaks) ↦
            let (r, e) = pick_total (consider w entry.override_index value m) entries in
            (r, ground arith)
      ]

  -- Every operation in a context whose notebook path does not begin with a slash is decided, with
  -- more fuel than the path is long.
  pub evaluate_total :
      (default : Bool) (compiled : List CompiledOverride)
      → (d : SettingsDecision) × (evaluate fuel default compiled op ctx ≡ some d)
  unfolding evaluate
  evaluate_total default compiled =
      let (r, e) = pick_total none compiled in (decision_of default r, rw e)
