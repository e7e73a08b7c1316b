-- ===== src/Settings/Evaluator.antt =====
-- settings/settings-evaluator.ts. The cache of `compileGlob` changes no answer (Glob/Cache), so the
-- evaluator compiles by `compile_fresh`. A loop that may not end takes fuel: `none` outside is that
-- the fuel ran out.
pub mod Cascade
pub mod Winner
pub mod Divergence
pub mod Total
mod Tests
use nook_bridge.Common.{
  ℕ, zero, suc, ◌+◌, ◌-◌, Bool, true, false, not, ◌&&◌, ◌||◌, Option, none, some, List, [], ◌∷◌,
  ◌++◌, Text, codes, text_eq, ltb, leb, ◌==◌, if◌then◌else◌, length, take, any, keep, ◌>>=◌,
}
use nook_bridge.Settings.Types.{
  SettingsOperation, read, edit, create, delete, SettingsOverride, SettingsFile, default_of,
  value_of,
}
use nook_bridge.Settings.Glob.{Matcher, compile_fresh}

pub record CompiledPattern : Type 0 where
  pub original : Text
  pub matcher : Matcher

pub record CompiledOverride : Type 0 where
  pub override_index : ℕ
  pub original : SettingsOverride
  pub matches_root : Bool
  pub compiled_notebooks : List CompiledPattern
  pub compiled_notes : List CompiledPattern

pub record MatchedBy : Type 0 where
  pub override_index : ℕ
  pub pattern : Text

pub record SettingsDecision : Type 0 where
  pub allowed : Bool
  pub matched_by : Option MatchedBy

pub record SettingsEvaluationContext : Type 0 where
  pub notebook_path : Option Text
  pub note_title : Option Text

abbrev pub root_notebook_marker : Text
root_notebook_marker = codes "<root>"

-- `none` is a `SettingsEvaluatorError`.
unfoldable pub compile_all : List Text → Option (List CompiledPattern)
compile_all [] = some []
compile_all (pattern ∷ list) = do
  m ← compile_fresh pattern
  rest ← compile_all list
  some ((record { original = pattern; matcher = m }) ∷ rest)

abbrev pub compile_list : Option (List Text) → Option (List CompiledPattern)
compile_list none = some []
compile_list (some list) = compile_all list

abbrev pub is_root : Text → Bool
is_root pattern = text_eq pattern root_notebook_marker

abbrev pub lists_root : Option (List Text) → Bool
lists_root none = false
lists_root (some list) = any is_root list

abbrev pub without_root : Option (List Text) → Option (List Text)
without_root none = none
without_root (some list) = some (keep (λ p. not (is_root p)) list)

unfoldable pub compile_from : ℕ → List SettingsOverride → Option (List CompiledOverride)
compile_from index [] = some []
compile_from index (override ∷ overrides) = do
  notebooks ← compile_list (without_root override.notebooks)
  notes ← compile_list override.notes
  rest ← compile_from (index + 1) overrides
  some (
      (record {
        override_index = index;
        original = override;
        matches_root = lists_root override.notebooks;
        compiled_notebooks = notebooks;
        compiled_notes = notes;
      })
      ∷ rest)

unfoldable pub compile_overrides : List SettingsOverride → Option (List CompiledOverride)
compile_overrides overrides = compile_from 0 overrides

unfoldable pub find_match : List CompiledPattern → Text → Option CompiledPattern
find_match [] input = none
find_match (entry ∷ list) input = if entry.matcher input then some entry else find_match list input

-- `path.lastIndexOf("/", from)`; a negative `from` counts as 0, as the truncated `-` gives.
unfoldable pub last_slash : Text → ℕ → Option ℕ
last_slash [] from = none
last_slash (c ∷ s) zero = if c == b'/' then some 0 else none
last_slash (c ∷ s) (suc from) = elim (last_slash s from) [
  | some i ↦ some (suc i)
  | none ↦ if c == b'/' then some 0 else none
]

-- The `while (true)` of `findNotebookMatch`; `path.slice(0, end)` is `take end path`.
unfoldable pub notebook_loop : ℕ → List CompiledPattern → Text → ℕ → Option (Option CompiledPattern)
notebook_loop zero list path end = none
notebook_loop (suc fuel) list path end = elim (find_match list (take end path)) [
  | some matched ↦ some (some matched)
  | none ↦ elim (last_slash path (end - 1)) [
    | none ↦ some none
    | some separator ↦ notebook_loop fuel list path separator
  ]
]

unfoldable pub find_notebook_match :
    ℕ → List CompiledPattern → Text → Option (Option CompiledPattern)
find_notebook_match fuel list path = notebook_loop fuel list path (length path)

abbrev pub original_of : Option CompiledPattern → Option Text
original_of none = none
original_of (some e) = some e.original

unfoldable pub match_notebooks : ℕ → CompiledOverride → Option Text → Option (Option Text)
match_notebooks fuel compiled (some path) = do
  matched ← find_notebook_match fuel compiled.compiled_notebooks path
  some (original_of matched)
match_notebooks fuel compiled none = some (
    if compiled.matches_root
    then some root_notebook_marker
    else original_of (find_match compiled.compiled_notebooks []))

abbrev pub note_input : Option Text → Text → Text
note_input none title = title
note_input (some []) title = title
note_input (some (c ∷ s)) title = (c ∷ s) ++ (b'/' ∷ title)

unfoldable pub match_notes : CompiledOverride → Option Text → Option Text → Option Text
match_notes compiled path none = none
match_notes compiled path (some title) =
    original_of (find_match compiled.compiled_notes (note_input path title))

-- For `create`, a context without a notebook matches the reserved marker alone.
unfoldable pub create_pattern : ℕ → CompiledOverride → Option Text → Option (Option Text)
create_pattern fuel entry (some path) = match_notebooks fuel entry (some path)
create_pattern fuel entry none =
    some (if entry.matches_root then some root_notebook_marker else none)

abbrev pub or_else : Option Text → Option (Option Text) → Option (Option Text)
or_else (some pattern) rest = some (some pattern)
or_else none rest = rest

-- The pattern by which one override applies to an operation in a context.
unfoldable pub matched_pattern :
    ℕ → SettingsOperation → SettingsEvaluationContext → CompiledOverride → Option (Option Text)
matched_pattern fuel create ctx entry = create_pattern fuel entry ctx.notebook_path
matched_pattern fuel op ctx entry =
    or_else (match_notes entry ctx.notebook_path ctx.note_title)
      (match_notebooks fuel entry ctx.notebook_path)

-- `winningIndex`, `winningPattern` and `winningValue`, which are set together.
pub record Winning : Type 0 where
  pub index : ℕ
  pub pattern : Text
  pub value : Bool

unfoldable pub challenge : Option Winning → Winning → Option Winning
challenge none candidate = some candidate
challenge (some w) candidate =
    if ltb (length w.pattern) (length candidate.pattern)
      || (length candidate.pattern == length w.pattern && ltb w.index candidate.index)
    then some candidate
    else some w

abbrev pub consider : Option Winning → ℕ → Bool → Option Text → Option Winning
consider winning index value none = winning
consider winning index value (some pattern) =
    challenge winning (record { index = index; pattern = pattern; value = value })

-- The loop of `evaluate` over the overrides.
unfoldable pub pick :
    ℕ
    → SettingsOperation
    → SettingsEvaluationContext
    → Option Winning
    → List CompiledOverride
    → Option (Option Winning)
pick fuel op ctx winning [] = some winning
pick fuel op ctx winning (entry ∷ entries) = elim (value_of entry.original op) [
  | none ↦ pick fuel op ctx winning entries
  | some value ↦ elim (matched_pattern fuel op ctx entry) [
    | none ↦ none
    | some matched ↦ pick fuel op ctx (consider winning entry.override_index value matched) entries
  ]
]

abbrev pub decision_of : Bool → Option Winning → SettingsDecision
decision_of default none = record { allowed = default; matched_by = none }
decision_of default (some w) = record {
  allowed = w.value;
  matched_by = some (record { override_index = w.index; pattern = w.pattern });
}

unfoldable pub evaluate :
    ℕ
    → Bool
    → List CompiledOverride
    → SettingsOperation
    → SettingsEvaluationContext
    → Option SettingsDecision
evaluate fuel default compiled op ctx = do
  winning ← pick fuel op ctx none compiled
  some (decision_of default winning)

-- `evaluateSettings`: outside, `none` is the `SettingsEvaluatorError` of the construction.
unfoldable pub evaluate_settings :
    ℕ
    → SettingsFile
    → SettingsOperation
    → SettingsEvaluationContext
    → Option (Option SettingsDecision)
evaluate_settings fuel settings op ctx = do
  compiled ← compile_overrides settings.overrides
  some (evaluate fuel (default_of settings.defaults op) compiled op ctx)
