-- ===== src/Settings/Types.antt =====
-- settings/settings-types.ts: operations, defaults, overrides and the settings file.
use nook_bridge.Common.{Bool, Option, List, Text}

pub data SettingsOperation : Type 0 where
  read edit create delete : SettingsOperation

pub data SettingsUploadPolicy : Type 0 where
  attributed allow : SettingsUploadPolicy

pub record SettingsDefaults : Type 0 where
  pub reads : Bool
  pub edits : Bool
  pub creates : Bool
  pub deletes : Bool

-- `undefined` is `none`.
pub record SettingsOverride : Type 0 where
  pub notebooks : Option (List Text)
  pub notes : Option (List Text)
  pub reads : Option Bool
  pub edits : Option Bool
  pub creates : Option Bool
  pub deletes : Option Bool

pub record SettingsFile : Type 0 where
  pub upload : SettingsUploadPolicy
  pub defaults : SettingsDefaults
  pub overrides : List SettingsOverride

-- `defaults[op]` and `override[op]`.
abbrev pub default_of : SettingsDefaults → SettingsOperation → Bool
default_of d read = d.reads
default_of d edit = d.edits
default_of d create = d.creates
default_of d delete = d.deletes

abbrev pub value_of : SettingsOverride → SettingsOperation → Option Bool
value_of o read = o.reads
value_of o edit = o.edits
value_of o create = o.creates
value_of o delete = o.deletes
