-- ===== src/Settings/Loader/Tests.antt =====
-- settings/settings-loader.ts: the theorems on a concrete file, and some refusals.
use nook_bridge.Common.{
  ◌≡◌, refl, true, false, none, some, [], ◌∷◌, Text, codes, code_points, split_slash, text_eq,
  arith,
}
use nook_bridge.Common.Js.{
  JsValue, string, number, nat, boolean, array, object, end, field, property, from_items,
}
use nook_bridge.Settings.Types.{SettingsFile, allow, read}
use nook_bridge.Settings.Glob.{fold_ascii}
use nook_bridge.Settings.Evaluator.{SettingsDecision, evaluate_settings}
use nook_bridge.Settings.Loader.{
  load_settings, load_fields, validate_overrides, validate_override, validate_fields, read_list,
  read_entries, read_operation, read_upload_policy, parse_upload_policy, parse_defaults, has_own,
  is_override_key, is_notebook_entry, is_valid_id_entry, is_reserved_root_lookalike,
  first_segment_is_reserved_root,
}
use nook_bridge.Settings.Loader.Valid.{loaded_file_decides}

abbrev defaults_value : JsValue
defaults_value = object (
    field (codes "read") (boolean true) (
      field (codes "edit") (boolean false)
        (field (codes "create") (boolean false) (field (codes "delete") (boolean false) end))))

-- Notebooks as listed, with `read` refused there.
abbrev one_override : Text → JsValue
one_override notebook = object (
    field (codes "notebooks") (array (from_items (string notebook ∷ [])))
      (field (codes "read") (boolean false) end))

abbrev file_with : Text → JsValue
file_with notebook = object (
    field (codes "version") (number (nat 1)) (
      field (codes "upload") (string (codes "allow")) (
        field (codes "defaults") defaults_value
          (field (codes "overrides") (array (from_items (one_override notebook ∷ []))) end))))

abbrev work_file : SettingsFile
work_file = record {
  upload = allow;
  defaults = record { reads = true; edits = false; creates = false; deletes = false };
  overrides =
      (record {
        notebooks = some (codes "Work/*" ∷ []);
        notes = none;
        reads = some false;
        edits = none;
        creates = none;
        deletes = none;
      })
      ∷ [];
}

work_file_loads : load_settings (file_with (codes "Work/*")) ≡ some work_file
unfolding load_settings load_fields validate_overrides validate_override validate_fields read_list
    read_entries read_operation read_upload_policy parse_upload_policy parse_defaults has_own
    is_override_key is_notebook_entry is_valid_id_entry is_reserved_root_lookalike
    first_segment_is_reserved_root property text_eq code_points split_slash fold_ascii
work_file_loads = refl

root_spelled_otherwise_is_refused : load_settings (file_with (codes "<ROOT>/x")) ≡ none
unfolding load_settings load_fields validate_overrides validate_override validate_fields read_list
    read_entries read_operation read_upload_policy parse_upload_policy parse_defaults has_own
    is_override_key is_notebook_entry is_valid_id_entry is_reserved_root_lookalike
    first_segment_is_reserved_root property text_eq code_points split_slash fold_ascii
root_spelled_otherwise_is_refused = refl

loaded_file_decides_example :
    (d : SettingsDecision) × (evaluate_settings 10 work_file read
        (record { notebook_path = some (codes "Work/A"); note_title = none })
      ≡ some (some d))
loaded_file_decides_example =
    loaded_file_decides (file_with (codes "Work/*")) work_file work_file_loads 10 read
      (record { notebook_path = some (codes "Work/A"); note_title = none })
      (λ e. ground arith, omega arith)
