-- ===== src/Settings/NotebookIndex/Tests.antt =====
-- settings/notebook-index.ts: the theorems on a concrete hierarchy, and some runs.
use nook_bridge.Common.{
  ◌≡◌, refl, Option, none, some, List, [], ◌∷◌, Text, codes, text_eq, code_points, arith,
}
use nook_bridge.Settings.NotebookIndex.{
  Built, built, refused, notebook_cycle, RawRecord, NotebookIndex, is_valid_id, is_valid_title,
  validate_records, lookup, find_record, has_duplicate, join_segments, walk, ascii_fold, add_paths,
  build_notebook_index, resolve_path, resolve_id,
}
use nook_bridge.Settings.NotebookIndex.Walk.{build_notebook_index_total}
use nook_bridge.Settings.NotebookIndex.RoundTrip.{resolve_id-resolve_path}

abbrev notebook : Text → Text → Option Text → RawRecord
notebook id title parent = record { raw_id = some id; raw_title = some title; raw_parent = parent }

abbrev hierarchy : List RawRecord
hierarchy =
    notebook (codes "b") (codes "Plans") (some (codes "a"))
    ∷ notebook (codes "a") (codes "Work") none
    ∷ []

abbrev index : NotebookIndex
index = record {
  path_by_id = (codes "a", codes "Work") ∷ (codes "b", codes "Work/Plans") ∷ [];
  id_by_folded_path = (codes "work", codes "a") ∷ (codes "work/plans", codes "b") ∷ [];
}

hierarchy_builds : build_notebook_index 5 hierarchy ≡ some (built index)
unfolding build_notebook_index validate_records is_valid_id is_valid_title has_duplicate add_paths
    walk lookup find_record join_segments ascii_fold text_eq code_points
hierarchy_builds = refl

cycle_is_refused :
    build_notebook_index 5 (
      notebook (codes "a") (codes "A") (some (codes "b"))
      ∷ notebook (codes "b") (codes "B") (some (codes "a"))
      ∷ [])
    ≡ some (refused notebook_cycle)
unfolding build_notebook_index validate_records is_valid_id is_valid_title has_duplicate add_paths
    walk lookup find_record join_segments ascii_fold text_eq code_points
cycle_is_refused = refl

plans_path : resolve_path index (codes "b") ≡ some (codes "Work/Plans")
unfolding resolve_path lookup text_eq
plans_path = refl

build_notebook_index_total_example :
    (b : Built NotebookIndex) × (build_notebook_index 5 hierarchy ≡ some b)
build_notebook_index_total_example = build_notebook_index_total 5 hierarchy (omega arith)

resolve_id-resolve_path_example : resolve_id index (codes "Work/Plans") ≡ some (codes "b")
resolve_id-resolve_path_example =
    resolve_id-resolve_path 5 hierarchy index (codes "b") (codes "Work/Plans") hierarchy_builds
      plans_path

-- A title may begin with a slash, and then the path does.
slash_title :
    build_notebook_index 4 (notebook (codes "a") (codes "/x") none ∷ [])
    ≡ some (
        built (record {
          path_by_id = (codes "a", codes "/x") ∷ [];
          id_by_folded_path = (codes "/x", codes "a") ∷ [];
        }))
unfolding build_notebook_index validate_records is_valid_id is_valid_title has_duplicate add_paths
    walk lookup find_record join_segments ascii_fold text_eq code_points
slash_title = refl
