-- ===== src/Settings/Loader/Overrides.antt =====
-- settings/settings-loader.ts: what the overrides of a loaded file are, said without the loader.
use nook_bridge.Common.{
  ◌≡◌, ◌⊎◌, Bool, Option, none, some, List, map, Text, codes, All, split_slash,
}
use nook_bridge.Settings.Types.{SettingsOverride}
use nook_bridge.Settings.Glob.{fold_ascii, validate_pattern}
use nook_bridge.Settings.Loader.{first_segment}
use nook_bridge.Settings.Loader.Valid.{NotBoth}

-- The glob compiler takes the text, and splits it at its slashes.
abbrev pub IsPattern : Text → Type 0
IsPattern s = validate_pattern s ≡ some (split_slash s)

-- The first segment is `<root>`, in any case of its letters.
abbrev pub IsReserved : Text → Type 0
IsReserved s = map fold_ascii (first_segment (split_slash s)) ≡ codes "<root>"

-- A pattern for notebooks is not reserved or is `<root>` itself; one for notes is not reserved.
abbrev pub IsNotebookPattern : Text → Type 0
IsNotebookPattern s = IsPattern s × (¬ IsReserved s ⊎ (s ≡ codes "<root>"))

abbrev pub IsNotePattern : Text → Type 0
IsNotePattern s = IsPattern s × ¬ IsReserved s

abbrev pub AllOf : (Text → Type 0) → Option (List Text) → Type 0
AllOf P none = Unit
AllOf P (some list) = All P list

-- An override says for one operation or more whether it is allowed.
abbrev pub Speaks : SettingsOverride → Type 0
Speaks o =
    ((b : Bool) × (o.reads ≡ some b))
    ⊎ ((b : Bool) × (o.edits ≡ some b))
    ⊎ ((b : Bool) × (o.creates ≡ some b))
    ⊎ ((b : Bool) × (o.deletes ≡ some b))

pub record OverrideIsValid (o : SettingsOverride) : Type 0 where
  pub notebooks : AllOf IsNotebookPattern o.notebooks
  pub notes : AllOf IsNotePattern o.notes
  pub one_list : NotBoth o.notebooks o.notes
  pub speaks : Speaks o
