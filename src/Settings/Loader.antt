-- ===== src/Settings/Loader.antt =====
-- settings/settings-loader.ts and the run-time guards of settings/settings-types.ts: the reading of
-- a parsed settings file. `none` is the `SettingsLoadError`. Freezing changes no answer.
pub mod Valid
pub mod Overrides
mod Tests
use nook_bridge.Common.{
  Bool, true, false, not, ◌&&◌, ◌||◌, Option, none, some, List, [], ◌∷◌, map, Text, codes, text_eq,
  code_points, split_slash, ◌==◌, if◌then◌else◌, any, all, length, ◌>>=◌, ◌>>◌, check, is_some,
}
use nook_bridge.Common.Js.{
  JsValue, JsFields, JsItems, boolean, number, nat, string, array, object, end, field, property,
  own_keys,
}
use nook_bridge.Settings.Types.{
  SettingsUploadPolicy, attributed, allow, SettingsDefaults, SettingsOverride, SettingsFile,
}
use nook_bridge.Settings.Glob.{fold_ascii, has_double_slash, is_printable}

-- `Object.prototype.hasOwnProperty.call(override, key)`.
unfoldable pub has_own : Text → JsFields → Bool
has_own key end = false
has_own key (field k v fs) = text_eq k key || has_own key fs

-- `isSettingsUploadPolicy`, and the policy that it tells.
unfoldable pub parse_upload_policy : JsValue → Option SettingsUploadPolicy
parse_upload_policy (string s) =
    if text_eq s (codes "attributed")
    then some attributed
    else if text_eq s (codes "allow")
    then some allow
    else none
parse_upload_policy _ = none

unfoldable pub read_upload_policy : JsFields → Option SettingsUploadPolicy
read_upload_policy candidate =
    if has_own (codes "upload") candidate
    then parse_upload_policy (property (codes "upload") candidate)
    else some attributed

-- `isSettingsDefaults`, and the defaults that it tells: the four keys in this order, no other.
unfoldable pub parse_defaults : JsValue → Option SettingsDefaults
parse_defaults
      (object (
        field k1
          (boolean r)
          (field k2 (boolean e) (field k3 (boolean c) (field k4 (boolean d) end))))) =
    if text_eq k1 (codes "read")
      && text_eq k2 (codes "edit")
      && text_eq k3 (codes "create")
      && text_eq k4 (codes "delete")
    then some (record { reads = r; edits = e; creates = c; deletes = d })
    else none
parse_defaults _ = none

unfoldable pub is_valid_id_entry : Text → Bool
is_valid_id_entry value =
    not (length value == 0)
    && not (has_double_slash value)
    && not (any (λ c. not (is_printable c)) (code_points value))

abbrev pub first_segment : List Text → Text
first_segment [] = []
first_segment (s ∷ ss) = s

-- Only asked about valid entries, which are ASCII, where `toLowerCase` is `fold_ascii`.
unfoldable pub first_segment_is_reserved_root : Text → Bool
first_segment_is_reserved_root value =
    text_eq (map fold_ascii (first_segment (split_slash value))) (codes "<root>")

unfoldable pub is_reserved_root_lookalike : Text → Bool
is_reserved_root_lookalike value =
    first_segment_is_reserved_root value && not (text_eq value (codes "<root>"))

abbrev pub operation_keys : List Text
operation_keys = codes "read" ∷ codes "edit" ∷ codes "create" ∷ codes "delete" ∷ []

unfoldable pub is_override_key : Text → Bool
is_override_key key = any (text_eq key) (codes "notebooks" ∷ codes "notes" ∷ operation_keys)

-- What an entry of either list must pass.
unfoldable pub is_notebook_entry : Text → Bool
is_notebook_entry entry = is_valid_id_entry entry && not (is_reserved_root_lookalike entry)

unfoldable pub is_note_entry : Text → Bool
is_note_entry entry = is_valid_id_entry entry && not (first_segment_is_reserved_root entry)

unfoldable pub read_entries : (Text → Bool) → JsItems → Option (List Text)
read_entries valid JsItems.nil = some []
read_entries valid (JsItems.cons (string s) vs) = do
  check (valid s)
  rest ← read_entries valid vs
  some (s ∷ rest)
read_entries valid (JsItems.cons _ vs) = none

abbrev pub entry_list : (Text → Bool) → JsValue → Option (Option (List Text))
entry_list valid (array vs) = do list ← read_entries valid vs; some (some list)
entry_list valid _ = none

-- The list of an override under a key, which may be absent.
unfoldable pub read_list : Text → (Text → Bool) → JsFields → Option (Option (List Text))
read_list key valid override =
    if has_own key override then entry_list valid (property key override) else some none

abbrev operation_value : JsValue → Option (Option Bool)
operation_value (boolean b) = some (some b)
operation_value _ = none

unfoldable pub read_operation : Text → JsFields → Option (Option Bool)
read_operation key override =
    if has_own key override then operation_value (property key override) else some none

-- `operationCount` is not 0.
abbrev pub names_operation : SettingsOverride → Bool
names_operation o = is_some o.reads || is_some o.edits || is_some o.creates || is_some o.deletes

unfoldable pub validate_fields : JsFields → Option SettingsOverride
validate_fields override = do
  check (all is_override_key (own_keys override))
  check (not (has_own (codes "notebooks") override && has_own (codes "notes") override))
  notebooks ← read_list (codes "notebooks") is_notebook_entry override
  notes ← read_list (codes "notes") is_note_entry override
  reads ← read_operation (codes "read") override
  edits ← read_operation (codes "edit") override
  creates ← read_operation (codes "create") override
  deletes ← read_operation (codes "delete") override
  check (is_some reads || is_some edits || is_some creates || is_some deletes)
  some (record {
    notebooks = notebooks;
    notes = notes;
    reads = reads;
    edits = edits;
    creates = creates;
    deletes = deletes;
  })

unfoldable pub validate_override : JsValue → Option SettingsOverride
validate_override (object override) = validate_fields override
validate_override _ = none

unfoldable pub validate_overrides : JsItems → Option (List SettingsOverride)
validate_overrides JsItems.nil = some []
validate_overrides (JsItems.cons raw raws) = do
  override ← validate_override raw
  overrides ← validate_overrides raws
  some (override ∷ overrides)

-- `candidate["version"] === SETTINGS_SCHEMA_VERSION`.
abbrev pub is_version : JsValue → Bool
is_version (number (nat n)) = n == 1
is_version _ = false

abbrev pub override_list : JsValue → Option (List SettingsOverride)
override_list (array raws) = validate_overrides raws
override_list _ = none

unfoldable pub load_fields : JsFields → Option SettingsFile
load_fields candidate = do
  check (is_version (property (codes "version") candidate))
  upload ← read_upload_policy candidate
  defaults ← parse_defaults (property (codes "defaults") candidate)
  overrides ← override_list (property (codes "overrides") candidate)
  some (record { upload = upload; defaults = defaults; overrides = overrides })

unfoldable pub load_settings : JsValue → Option SettingsFile
load_settings (object candidate) = load_fields candidate
load_settings _ = none
