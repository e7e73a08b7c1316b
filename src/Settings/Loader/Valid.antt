-- ===== src/Settings/Loader/Valid.antt =====
-- settings/settings-loader.ts: what a loaded file is, and that the evaluator takes every such file.
use nook_bridge.Common.{
  ℕ, ◌+◌, ◌≡◌, refl, ap, ◌∙◌, Bool, true, not, ◌&&◌, Option, none, some, List, [], ◌∷◌, map, Text,
  codes, arith, all, All, All-keep, Bool-cases, inl, inr, code_points, bind-some, OnSome,
  check-some, split_slash, subst,
}
use nook_bridge.Common.Js.{JsValue, JsFields, JsItems, string, array, object, property, own_keys}
use nook_bridge.Settings.Types.{SettingsOperation, SettingsOverride, SettingsFile, default_of}
use nook_bridge.Settings.Glob.{Matcher, matcher, validate_pattern, compile_fresh}
use nook_bridge.Settings.Evaluator.{
  CompiledPattern, CompiledOverride, SettingsEvaluationContext, SettingsDecision, compile_all,
  compile_list, compile_from, compile_overrides, without_root, is_root, lists_root,
  evaluate_settings,
}
use nook_bridge.Settings.Evaluator.Total.{IsRelative, evaluate_total}
use nook_bridge.Settings.Loader.{
  is_valid_id_entry, is_notebook_entry, is_note_entry, read_entries, read_list, names_operation,
  entry_list, has_own, is_override_key, read_operation, read_upload_policy, parse_defaults,
  override_list, validate_fields, validate_override, validate_overrides, load_fields, load_settings,
}

abbrev pub OnList : (Text → Bool) → Option (List Text) → Type 0
OnList valid none = Unit
OnList valid (some list) = All (λ s. valid s ≡ true) list

abbrev pub NotBoth : Option (List Text) → Option (List Text) → Type 0
NotBoth (some a) (some b) = ⊥
NotBoth a b = Unit

-- What the loader checks of an override.
abbrev pub OverrideIsChecked : SettingsOverride → Type 0
OverrideIsChecked o =
    OnList is_notebook_entry o.notebooks
    × OnList is_note_entry o.notes
    × NotBoth o.notebooks o.notes
    × (names_operation o ≡ true)

pub read_entries-All :
    (valid : Text → Bool) (vs : JsItems) (list : List Text)
    → read_entries valid vs ≡ some list
    → All (λ s. valid s ≡ true) list
unfolding read_entries
read_entries-All valid JsItems.nil list h = subst (OnList valid) h tt
read_entries-All valid (JsItems.cons (string s) vs) list h =
    let (ok, h1) = check-some (valid s) _ list h in
    let (rest, found, e) = bind-some (read_entries valid vs) _ list h1 in
    subst (OnList valid) e (ok, read_entries-All valid vs rest found)
read_entries-All valid (JsItems.cons _ vs) list h = cc

entry_list-OnList :
    (valid : Text → Bool) (v : JsValue) (list : Option (List Text))
    → entry_list valid v ≡ some list
    → OnList valid list
entry_list-OnList valid (array vs) list h =
    let (l, found, e) = bind-some (read_entries valid vs) _ list h in
    subst (OnSome (OnList valid)) e (read_entries-All valid vs l found)
entry_list-OnList valid _ list h = cc

read_list-OnList :
    (key : Text) (valid : Text → Bool) (fs : JsFields) (list : Option (List Text))
    → read_list key valid fs ≡ some list
    → OnList valid list
unfolding read_list
read_list-OnList key valid fs list h = elim (Bool-cases (has_own key fs)) [
  | inl e ↦ entry_list-OnList valid (property key fs) list (rw e at h)
  | inr e ↦ subst (OnSome (OnList valid)) (rw e at h) tt
]

read_list-has_own :
    (key : Text) (valid : Text → Bool) (fs : JsFields) (list : List Text)
    → read_list key valid fs ≡ some (some list)
    → has_own key fs ≡ true
unfolding read_list
read_list-has_own key valid fs list h = ground arith

never_both :
    (a b : Bool) (x y : Option (List Text))
    → not (a && b) ≡ true
    → ((l : List Text) → x ≡ some l → a ≡ true)
    → ((l : List Text) → y ≡ some l → b ≡ true)
    → NotBoth x y
never_both a b none y h f g = tt
never_both a b (some l) none h f g = tt
never_both a b (some l) (some k) h f g = let p = f l refl in let q = g k refl in ground arith

validate_fields-OverrideIsChecked :
    (fs : JsFields) (o : SettingsOverride) → validate_fields fs ≡ some o → OverrideIsChecked o
unfolding validate_fields
validate_fields-OverrideIsChecked fs o h =
    let (_, h1) = check-some (all is_override_key (own_keys fs)) _ o h in
    let (apart, h2) = check-some _ _ o h1 in
    let (nb, e1, h3) = bind-some (read_list (codes "notebooks") is_notebook_entry fs) _ o h2 in
    let (nt, e2, h4) = bind-some (read_list (codes "notes") is_note_entry fs) _ o h3 in
    let (r, _, h5) = bind-some (read_operation (codes "read") fs) _ o h4 in
    let (e, _, h6) = bind-some (read_operation (codes "edit") fs) _ o h5 in
    let (c, _, h7) = bind-some (read_operation (codes "create") fs) _ o h6 in
    let (d, _, h8) = bind-some (read_operation (codes "delete") fs) _ o h7 in
    let (talks, h9) = check-some _ _ o h8 in
    let fine : OverrideIsChecked
        (record { notebooks = nb; notes = nt; reads = r; edits = e; creates = c; deletes = d }) =
      (
        read_list-OnList (codes "notebooks") is_notebook_entry fs nb e1,
        read_list-OnList (codes "notes") is_note_entry fs nt e2,
        never_both _ _ nb nt apart
            (λ l e. read_list-has_own (codes "notebooks") is_notebook_entry fs l (e1 ∙ ap some e))
            (λ l e. read_list-has_own (codes "notes") is_note_entry fs l (e2 ∙ ap some e)),
        talks,
      ) in
    subst (OnSome OverrideIsChecked) h9 fine

validate_overrides-All :
    (vs : JsItems) (os : List SettingsOverride)
    → validate_overrides vs ≡ some os
    → All OverrideIsChecked os
unfolding validate_overrides validate_override
validate_overrides-All JsItems.nil os h = subst (OnSome (All OverrideIsChecked)) h tt
validate_overrides-All (JsItems.cons (object fs) vs) os h =
    let (o, e, h1) = bind-some (validate_fields fs) _ os h in
    let (rest, e1, h2) = bind-some (validate_overrides vs) _ os h1 in
    subst (OnSome (All OverrideIsChecked)) h2
      (validate_fields-OverrideIsChecked fs o e, validate_overrides-All vs rest e1)
validate_overrides-All (JsItems.cons _ vs) os h = cc

override_list-All :
    (v : JsValue) (os : List SettingsOverride)
    → override_list v ≡ some os
    → All OverrideIsChecked os
override_list-All (array vs) os h = validate_overrides-All vs os h
override_list-All _ os h = cc

pub load_settings-checked :
    (v : JsValue) (file : SettingsFile)
    → load_settings v ≡ some file
    → All OverrideIsChecked file.overrides
unfolding load_settings load_fields
load_settings-checked (object fs) file h =
    let (_, h1) = check-some _ _ file h in
    let (u, _, h2) = bind-some (read_upload_policy fs) _ file h1 in
    let (d, _, h3) = bind-some (parse_defaults (property (codes "defaults") fs)) _ file h2 in
    let (os, e, h4) = bind-some (override_list (property (codes "overrides") fs)) _ file h3 in
    subst (OnSome (λ f. All OverrideIsChecked f.overrides)) h4
      (override_list-All (property (codes "overrides") fs) os e)
load_settings-checked _ file h = cc

pub validate_pattern_total :
    (s : Text) → is_valid_id_entry s ≡ true → validate_pattern s ≡ some (split_slash s)
unfolding is_valid_id_entry validate_pattern
validate_pattern_total s h = ground arith

compile_fresh_total :
    (s : Text) → is_valid_id_entry s ≡ true → (m : Matcher) × (compile_fresh s ≡ some m)
unfolding compile_fresh
compile_fresh_total s h =
    (matcher (map code_points (split_slash s)), rw (validate_pattern_total s h))

compile_all_total :
    (list : List Text)
    → All (λ s. is_valid_id_entry s ≡ true) list
    → (cs : List CompiledPattern) × (compile_all list ≡ some cs)
unfolding compile_all
compile_all_total [] h = ([], refl)
compile_all_total (s ∷ list) (ok, oks) =
    let (m, e) = compile_fresh_total s ok in
    let (cs, es) = compile_all_total list oks in
    ((record { original = s; matcher = m }) ∷ cs, rw (e, es))

All-weaken :
    (p q : Text → Bool)
    → ((s : Text) → p s ≡ true → q s ≡ true)
    → (list : List Text) → All (λ s. p s ≡ true) list
    → All (λ s. q s ≡ true) list
All-weaken p q f [] h = tt
All-weaken p q f (s ∷ list) (ok, oks) = (f s ok, All-weaken p q f list oks)

compile_list_total :
    (p : Text → Bool)
    → ((s : Text) → p s ≡ true → is_valid_id_entry s ≡ true)
    → (list : Option (List Text)) → OnList p list
    → (cs : List CompiledPattern) × (compile_list list ≡ some cs)
compile_list_total p f none h = ([], refl)
compile_list_total p f (some list) h =
    compile_all_total list (All-weaken p is_valid_id_entry f list h)

without_root-OnList :
    (p : Text → Bool) (list : Option (List Text)) → OnList p list → OnList p (without_root list)
without_root-OnList p none h = tt
without_root-OnList p (some list) h = All-keep (λ s. p s ≡ true) (λ s. not (is_root s)) list h

notebook_entry_valid : (s : Text) → is_notebook_entry s ≡ true → is_valid_id_entry s ≡ true
unfolding is_notebook_entry
notebook_entry_valid s h = ground arith

note_entry_valid : (s : Text) → is_note_entry s ≡ true → is_valid_id_entry s ≡ true
unfolding is_note_entry
note_entry_valid s h = ground arith

compile_from_total :
    (index : ℕ) (os : List SettingsOverride)
    → All OverrideIsChecked os
    → (cs : List CompiledOverride) × (compile_from index os ≡ some cs)
unfolding compile_from
compile_from_total index [] h = ([], refl)
compile_from_total index (o ∷ os) ((nbs, nts, _, _), h) =
    let (a, ea) =
      compile_list_total is_notebook_entry notebook_entry_valid (without_root o.notebooks)
        (without_root-OnList is_notebook_entry o.notebooks nbs) in
    let (b, eb) = compile_list_total is_note_entry note_entry_valid o.notes nts in
    let (cs, ec) = compile_from_total (index + 1) os h in
    let compiled : CompiledOverride = record {
      override_index = index;
      original = o;
      matches_root = lists_root o.notebooks;
      compiled_notebooks = a;
      compiled_notes = b;
    } in
    (compiled ∷ cs, rw (ea, eb, ec))

-- The evaluator never throws on a file that the loader accepted, and it decides every operation in
-- every context whose notebook path does not begin with a slash, with more fuel than the path is
-- long.
pub loaded_file_decides :
    (v : JsValue) (file : SettingsFile)
    → load_settings v ≡ some file
    → (fuel : ℕ) (op : SettingsOperation) (ctx : SettingsEvaluationContext)
    → IsRelative fuel ctx.notebook_path
    → (d : SettingsDecision) × (evaluate_settings fuel file op ctx ≡ some (some d))
unfolding evaluate_settings compile_overrides
loaded_file_decides v file h fuel op ctx rel =
    let (cs, e) = compile_from_total 0 file.overrides (load_settings-checked v file h) in
    let (d, ed) = evaluate_total fuel op ctx rel (default_of file.defaults op) cs in (d, rw (e, ed))
