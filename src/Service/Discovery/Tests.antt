-- ===== src/Service/Discovery/Tests.antt =====
-- service/discovery-visibility.ts: the theorem on a concrete search, and some searches.
use nook_bridge.Common.{
  ◌≡◌, refl, Bool, true, false, Option, none, some, List, [], ◌∷◌, All, Text, codes, text_eq,
  code_points,
}
use nook_bridge.Common.Js.{JsValue, object, string, field, end, property}
use nook_bridge.Service.Discovery.Hierarchy.{
  DiscoverySearchHit, note, notebook, DiscoverySource, MayRead, HierarchySnapshot, load_snapshot,
  read_parents, parent_of, own_field, chain_of, all_chains, ancestry_of, path_of, is_ancestor,
  depth_of,
}
use nook_bridge.Service.Discovery.{
  Membership, build_membership, note_hits, search_hits, claims_of, claim_all, claim, claimants_of,
  deepest_of, holders_of, governing_path, decide_note, decide_root_note, filter_note_list,
  notebook_visible,
}
use nook_bridge.Settings.NotebookIndex.{
  build_notebook_index, validate_records, is_valid_id, is_valid_title, has_duplicate, add_paths,
  walk, lookup, find_record, join_segments, ascii_fold, resolve_path,
}
use nook_bridge.Service.Discovery.Shown.{HitAllowed, search_hits_are_allowed}

-- One notebook, `Work`, which holds the note n1 directly; only `Work` may be read.
abbrev hierarchy : Option (List JsValue)
hierarchy = some (
    object
      (field (codes "id") (string (codes "b1")) (field (codes "title") (string (codes "Work")) end))
    ∷ [])

abbrev source : DiscoverySource
source = record {
  find_note_ids_by_notebook = some (λ id. some (codes "n1" ∷ []));
  has_note_in_notebook = some (λ id n. some true);
  note_metadata = λ id. some (object end);
  read_note_unlocked = some (λ id. some true);
}

abbrev reads_work : Option Text → Bool
reads_work none = false
reads_work (some path) = text_eq path (codes "Work")

abbrev only_work : MayRead
only_work = λ ctx. some (reads_work ctx.notebook_path)

abbrev hit : Text → DiscoverySearchHit
hit id = record { id = id; title = codes "T"; source = note }

abbrev work_hit : DiscoverySearchHit
work_hit = record { id = codes "b1"; title = codes "Work"; source = notebook }

abbrev found : List DiscoverySearchHit
found = hit (codes "n1") ∷ hit (codes "n2") ∷ work_hit ∷ []

shown_one : search_hits 5 source only_work hierarchy found ≡ hit (codes "n1") ∷ work_hit ∷ []
unfolding search_hits load_snapshot build_membership note_hits read_parents parent_of own_field
    property chain_of all_chains ancestry_of path_of is_ancestor depth_of claims_of claim_all claim
    claimants_of deepest_of holders_of governing_path decide_note decide_root_note filter_note_list
    notebook_visible build_notebook_index validate_records is_valid_id is_valid_title has_duplicate
    add_paths walk lookup find_record join_segments ascii_fold text_eq code_points resolve_path
shown_one = refl

search_hits_are_allowed_example :
    All
      (λ h.
        (snapshot : HierarchySnapshot) × (membership : Membership) × (load_snapshot 5 hierarchy
          ≡ some snapshot)
        × (build_membership source snapshot ≡ some membership)
        × HitAllowed source only_work snapshot membership (note_hits found) h h.source)
      (search_hits 5 source only_work hierarchy found)
search_hits_are_allowed_example = search_hits_are_allowed 5 source only_work hierarchy found
