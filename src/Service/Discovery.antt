-- ===== src/Service/Discovery.antt =====
-- service/discovery-visibility.ts: which notes and notebooks a search or a list may show. The source
-- of notes and notebooks and the settings evaluator are parameters; a question that is asked twice is
-- answered alike. `none` outside is that a call throws.
pub mod Hierarchy
pub mod Shown
mod Tests
use nook_bridge.Common.{
  ℕ, zero, suc, ◌+◌, ◌-◌, Bool, true, false, not, ◌&&◌, ◌||◌, Option, none, some, List, [], ◌∷◌,
  ◌++◌, map, Text, codes, text_eq, leb, ltb, ◌==◌, if◌then◌else◌, length, any, all, keep, is_some,
  ◌>>=◌, ◌>>◌, check,
}
use nook_bridge.Common.Js.{JsValue, JsFields, undefined, boolean, string, object, property, text_of}
use nook_bridge.Settings.Evaluator.{SettingsEvaluationContext}
use nook_bridge.Settings.NotebookIndex.{
  RawRecord, Built, built, refused, NotebookIndex, build_notebook_index, resolve_path,
}
use nook_bridge.Service.Discovery.Hierarchy.{
  DiscoveryNote, HitSource, note, notebook, DiscoverySearchHit, DiscoverySource, MayRead,
  max_hierarchy_records, max_membership_entries, own_field, Parents, parent_of, read_parents,
  parent_or_none, chain_of, all_chains, HierarchySnapshot, ancestry_of, path_of, is_ancestor,
  depth_of, load_snapshot,
}

abbrev pub Membership : Type 0
Membership = List (Text × List Text)

unfoldable pub claimants_of : Text → Membership → Option (List Text)
claimants_of id [] = none
claimants_of id ((key, claimants) ∷ rest) =
    if text_eq key id then some claimants else claimants_of id rest

unfoldable pub claim : Text → Text → Membership → Membership
claim note_id notebook_id [] = (note_id, notebook_id ∷ []) ∷ []
claim note_id notebook_id ((key, claimants) ∷ rest) =
    let others = claim note_id notebook_id rest in
    if text_eq key note_id
    then (
      key,
      if any (text_eq notebook_id) claimants then claimants else claimants ++ (notebook_id ∷ []),
    )
      ∷ rest
    else (key, claimants) ∷ others

unfoldable pub claim_all : Text → List Text → Membership → Option Membership
claim_all notebook_id [] claims = some claims
claim_all notebook_id (note_id ∷ ids) claims = do
  check (ltb 0 (length note_id))
  claim_all notebook_id ids (claim note_id notebook_id claims)

unfoldable pub claims_of :
    (Text → Option (List Text)) → ℕ → Membership → List Text → Option Membership
claims_of find entries claims [] = some claims
claims_of find entries claims (notebook_id ∷ ids) = do
  note_ids ← find notebook_id
  check (leb (length note_ids) (max_membership_entries - entries))
  more ← claim_all notebook_id note_ids claims
  claims_of find (entries + length note_ids) more ids

unfoldable pub build_membership : DiscoverySource → HierarchySnapshot → Option Membership
build_membership source snapshot = do
  find ← source.find_note_ids_by_notebook
  claims_of find 0 [] snapshot.notebook_ids

-- The loop for the deepest claimant; the first of the equally deep stays.
abbrev deeper : Option (Text × ℕ) → Text → ℕ → Option (Text × ℕ)
deeper none id depth = some (id, depth)
deeper (some (best, most)) id depth = if ltb most depth then some (id, depth) else some (best, most)

unfoldable pub deepest_of :
    HierarchySnapshot → Option (Text × ℕ) → List Text → Option (Option (Text × ℕ))
deepest_of snapshot best [] = some best
deepest_of snapshot best (id ∷ ids) = do
  depth ← depth_of snapshot id
  deepest_of snapshot (deeper best id depth) ids

unfoldable pub holders_of : (Text → Text → Option Bool) → Text → List Text → Option (List Text)
holders_of has_note note_id [] = some []
holders_of has_note note_id (id ∷ ids) = do
  direct ← has_note id note_id
  holders ← holders_of has_note note_id ids
  some (if direct then id ∷ holders else holders)

abbrev pub is_only : Text → List Text → Bool
is_only id (holder ∷ []) = text_eq holder id
is_only id _ = false

abbrev pub path_under :
    DiscoverySource → HierarchySnapshot → Text → List Text → Option (Text × ℕ) → Option Text
path_under source snapshot note_id claimants none = none
path_under source snapshot note_id claimants (some (deepest, depth)) = do
  check (all (λ c. text_eq c deepest || is_ancestor snapshot c deepest) claimants)
  has_note ← source.has_note_in_notebook
  holders ← holders_of has_note note_id claimants
  check (is_only deepest holders)
  path_of snapshot deepest

unfoldable pub governing_path : DiscoverySource → HierarchySnapshot → Text → List Text → Option Text
governing_path source snapshot note_id claimants = do
  deepest ← deepest_of snapshot none claimants
  path_under source snapshot note_id claimants deepest

abbrev pub or_false : Option Bool → Bool
or_false none = false
or_false (some b) = b

abbrev pub unlocked : DiscoverySource → Text → Option Bool
unlocked source note_id = do reader ← source.read_note_unlocked; reader note_id

-- Every throw in a decision hides.
unfoldable pub decide_note :
    DiscoverySource → MayRead → HierarchySnapshot → DiscoveryNote → List Text → Bool
decide_note source may_read snapshot n claimants = or_false (do
  free ← unlocked source n.id
  check free
  path ← governing_path source snapshot n.id claimants
  may_read (record { notebook_path = some path; note_title = some n.title }))

abbrev pub is_true : JsValue → Bool
is_true (boolean true) = true
is_true _ = false

abbrev pub is_undefined : JsValue → Bool
is_undefined undefined = true
is_undefined _ = false

unfoldable pub decide_root_note : DiscoverySource → MayRead → DiscoveryNote → Bool
decide_root_note source may_read n = or_false (do
  metadata ← source.note_metadata n.id
  check (is_true (own_field metadata (codes "notebookAbsenceConfirmed")))
  check (is_undefined (own_field metadata (codes "notebookId")))
  free ← unlocked source n.id
  check free
  may_read (record { notebook_path = none; note_title = some n.title }))

abbrev pub decide_by :
    DiscoverySource → MayRead → HierarchySnapshot → DiscoveryNote → Option (List Text) → Bool
decide_by source may_read snapshot n none = decide_root_note source may_read n
decide_by source may_read snapshot n (some claimants) =
    decide_note source may_read snapshot n claimants

unfoldable pub filter_note_list :
    DiscoverySource
    → MayRead
    → Membership
    → HierarchySnapshot
    → List DiscoveryNote
    → List DiscoveryNote
filter_note_list source may_read membership snapshot notes =
    keep (λ n. decide_by source may_read snapshot n (claimants_of n.id membership)) notes

unfoldable pub notebook_visible : MayRead → HierarchySnapshot → Text → Bool
notebook_visible may_read snapshot id = or_false (do
  path ← path_of snapshot id
  may_read (record { notebook_path = some path; note_title = none }))

abbrev pub or_empty_list {ℓ} : {A : Type ℓ} → Option (List A) → List A
or_empty_list none = []
or_empty_list (some xs) = xs

-- `listNotesIfKnown` and `listNotes`, with the notes that the source lists.
unfoldable pub list_notes_if_known :
    ℕ
    → DiscoverySource
    → MayRead
    → Option (List JsValue)
    → List DiscoveryNote
    → Option (List DiscoveryNote)
list_notes_if_known fuel source may_read records notes = do
  snapshot ← load_snapshot fuel records
  membership ← build_membership source snapshot
  some (filter_note_list source may_read membership snapshot notes)

abbrev pub list_notes :
    ℕ → DiscoverySource → MayRead → Option (List JsValue) → List DiscoveryNote → List DiscoveryNote
list_notes fuel source may_read records notes =
    or_empty_list (list_notes_if_known fuel source may_read records notes)

unfoldable pub filter_notebooks : ℕ → MayRead → Option (List JsValue) → List Text → List Text
filter_notebooks fuel may_read records ids =
    or_empty_list (do
      snapshot ← load_snapshot fuel records
      some (keep (notebook_visible may_read snapshot) ids))

unfoldable pub note_hits : List DiscoverySearchHit → List DiscoveryNote
note_hits [] = []
note_hits (hit ∷ hits) = elim hit.source [
  | note ↦ (record { id = hit.id; title = hit.title }) ∷ note_hits hits
  | notebook ↦ note_hits hits
]

abbrev pub shows :
    MayRead → HierarchySnapshot → List DiscoveryNote → DiscoverySearchHit → HitSource → Bool
shows may_read snapshot visible hit note = any (λ n. text_eq n.id hit.id) visible
shows may_read snapshot visible hit notebook = notebook_visible may_read snapshot hit.id

-- `searchHits` after the check of its query, with the hits that the source finds.
unfoldable pub search_hits :
    ℕ
    → DiscoverySource
    → MayRead
    → Option (List JsValue)
    → List DiscoverySearchHit
    → List DiscoverySearchHit
search_hits fuel source may_read records raw = or_empty_list (do
  snapshot ← load_snapshot fuel records
  membership ← build_membership source snapshot
  let visible = filter_note_list source may_read membership snapshot (note_hits raw)
  some (keep (λ hit. shows may_read snapshot visible hit hit.source) raw))
