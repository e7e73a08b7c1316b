-- ===== src/Settings/Evaluator/Tests.antt =====
-- settings/settings-evaluator.ts: the theorems on concrete overrides, and some runs.
use nook_bridge.Common.{
  ℕ, zero, suc, ◌≡◌, ◌⊎◌, refl, true, false, Option, none, some, List, [], ◌∷◌, map, Text, codes,
  code_points, split_slash, length, take, arith,
}
use nook_bridge.Settings.Types.{read}
use nook_bridge.Settings.Glob.{
  fold_ascii, entry, row_rest, next_row, rows, segment_match, match_segments, matcher,
}
use nook_bridge.Settings.Evaluator.{
  CompiledPattern, CompiledOverride, SettingsDecision, SettingsEvaluationContext, Winning,
  find_match, last_slash, notebook_loop, find_notebook_match, match_notebooks, match_notes,
  matched_pattern, challenge, pick, evaluate, decision_of,
}
use nook_bridge.Settings.Evaluator.Cascade.{Answers, find_notebook_match-Answers}
use nook_bridge.Settings.Evaluator.Winner.{Candidate, NotBetter, evaluate_best}
use nook_bridge.Settings.Evaluator.Divergence.{find_notebook_match_diverges}
use nook_bridge.Settings.Evaluator.Total.{evaluate_total}

abbrev pattern : Text → CompiledPattern
pattern text = record { original = text; matcher = matcher (map code_points (split_slash text)) }

abbrev listed : List CompiledPattern
listed = pattern (codes "Work") ∷ pattern (codes "Home/*") ∷ []

-- `create` and `reads` are refused in Work and its children, and in the children of Home.
abbrev locked : CompiledOverride
locked = record {
  override_index = 0;
  original = record {
    notebooks = none;
    notes = none;
    reads = some false;
    edits = none;
    creates = some false;
    deletes = none;
  };
  matches_root = false;
  compiled_notebooks = listed;
  compiled_notes = [];
}

abbrev at_notebook : Text → SettingsEvaluationContext
at_notebook path = record { notebook_path = some path; note_title = none }

abbrev refused : SettingsDecision
refused = decision_of true (some (record { index = 0; pattern = codes "Work"; value = false }))

child_is_refused : evaluate 10 true (locked ∷ []) read (at_notebook (codes "Work/A")) ≡ some refused
unfolding evaluate pick matched_pattern match_notebooks match_notes find_notebook_match
    notebook_loop find_match last_slash challenge matcher match_segments segment_match rows next_row
    row_rest entry fold_ascii split_slash code_points
child_is_refused = refl

find_notebook_match-Answers_example :
    (o : Option CompiledPattern) × (find_notebook_match 10 listed (codes "Work/A") ≡ some o)
    × Answers listed (codes "Work/A") (length (codes "Work/A")) o
find_notebook_match-Answers_example =
    find_notebook_match-Answers listed (codes "Work/A") (λ e. ground arith) 10 (omega arith)

evaluate_best_example :
    ((refused ≡ decision_of true none)
      × ((c : Winning) → ¬ Candidate 10 read (at_notebook (codes "Work/A")) (locked ∷ []) c))
    ⊎ ((w : Winning) × Candidate 10 read (at_notebook (codes "Work/A")) (locked ∷ []) w
        × (refused ≡ decision_of true (some w))
        × ((c : Winning)
            → Candidate 10 read (at_notebook (codes "Work/A")) (locked ∷ []) c
            → NotBetter c w))
evaluate_best_example =
    evaluate_best 10 true (locked ∷ []) read (at_notebook (codes "Work/A")) refused child_is_refused

evaluate_total_example :
    (d : SettingsDecision) × (evaluate 10 true (locked ∷ []) read (at_notebook (codes "Work/A"))
      ≡ some d)
evaluate_total_example =
    evaluate_total 10 read (at_notebook (codes "Work/A")) (λ e. ground arith, omega arith) true
      (locked ∷ [])

-- The notebook `/x` at the top level.
nothing_listed : (k : ℕ) → find_match listed (take k (codes "/x")) ≡ none
unfolding find_match matcher match_segments segment_match rows next_row row_rest entry fold_ascii
    split_slash code_points
nothing_listed zero = refl
nothing_listed (suc zero) = refl
nothing_listed (suc (suc zero)) = refl
nothing_listed (suc (suc (suc k))) = refl

find_notebook_match_diverges_example : find_notebook_match 100 listed (codes "/x") ≡ none
find_notebook_match_diverges_example =
    find_notebook_match_diverges listed (codes "x") nothing_listed 100
