-- ===== src/Service/Discovery/Hierarchy.antt =====
-- service/discovery-visibility.ts: the snapshot of the notebook hierarchy that decisions stand on.
use nook_bridge.Common.{
  ℕ, zero, suc, Bool, true, false, not, Option, none, some, List, [], ◌∷◌, ◌++◌, map, Text, codes,
  text_eq, leb, if◌then◌else◌, length, any, all, is_some, ◌>>=◌, ◌>>◌, check,
}
use nook_bridge.Common.Js.{JsValue, undefined, string, object, property, text_of}
use nook_bridge.Settings.Evaluator.{SettingsEvaluationContext}
use nook_bridge.Settings.NotebookIndex.{
  RawRecord, Built, built, NotebookIndex, build_notebook_index, resolve_path,
}

pub record DiscoveryNote : Type 0 where
  pub id : Text
  pub title : Text

pub data HitSource : Type 0 where
  note notebook : HitSource

pub record DiscoverySearchHit : Type 0 where
  pub id : Text
  pub title : Text
  pub source : HitSource

-- `DiscoverySource`, without `search` and `listNotes`, whose answers are arguments.
-- `read_note_unlocked` answers whether the lock state is `unlocked`. An answer that is no list of
-- strings, or no boolean, is `none`, as it hides like a throw.
pub record DiscoverySource : Type 0 where
  pub find_note_ids_by_notebook : Option (Text → Option (List Text))
  pub has_note_in_notebook : Option (Text → Text → Option Bool)
  pub note_metadata : Text → Option JsValue
  pub read_note_unlocked : Option (Text → Option Bool)

-- `settingsEvaluator("read", ctx).allowed`.
abbrev pub MayRead : Type 0
MayRead = SettingsEvaluationContext → Option Bool

abbrev pub max_hierarchy_records : ℕ
max_hierarchy_records = 1000

abbrev pub max_membership_entries : ℕ
max_membership_entries = 100000

unfoldable pub own_field : JsValue → Text → JsValue
own_field (object fs) key = property key fs
own_field _ key = undefined

-- `parents`: the notebooks with their parents.
abbrev pub Parents : Type 0
Parents = List (Text × Option Text)

unfoldable pub parent_of : Text → Parents → Option (Option Text)
parent_of id [] = none
parent_of id ((key, parent) ∷ rest) = if text_eq key id then some parent else parent_of id rest

abbrev nonempty : JsValue → Option Text
nonempty (string (c ∷ s)) = some (c ∷ s)
nonempty _ = none

abbrev parent_field : JsValue → Option (Option Text)
parent_field undefined = some none
parent_field (string (c ∷ s)) = some (some (c ∷ s))
parent_field _ = none

unfoldable pub read_parents : Parents → List JsValue → Option Parents
read_parents seen [] = some seen
read_parents seen (v ∷ vs) = do
  id ← nonempty (own_field v (codes "id"))
  check (not (is_some (parent_of id seen)))
  parent ← parent_field (own_field v (codes "parentId"))
  read_parents (seen ++ ((id, parent) ∷ [])) vs

abbrev parent_is_known : Parents → Text × Option Text → Bool
parent_is_known parents (id, none) = true
parent_is_known parents (id, some p) = is_some (parent_of p parents)

-- `parents.get(cursor)`; a missing key is `undefined`.
abbrev pub parent_or_none : Option (Option Text) → Option Text
parent_or_none none = none
parent_or_none (some p) = p

-- The `while` over ancestors, which gives up when the chain is as long as there are notebooks.
unfoldable pub chain_of : ℕ → Parents → Option Text → Option (List Text)
chain_of fuel parents none = some []
chain_of zero parents (some cursor) = none
chain_of (suc fuel) parents (some cursor) = do
  rest ← chain_of fuel parents (parent_or_none (parent_of cursor parents))
  some (cursor ∷ rest)

unfoldable pub all_chains : Parents → Parents → Option (List (Text × List Text))
all_chains parents [] = some []
all_chains parents ((id, parent) ∷ rest) = do
  chain ← chain_of (length parents) parents parent
  chains ← all_chains parents rest
  some ((id, chain) ∷ chains)

pub record HierarchySnapshot : Type 0 where
  pub notebook_ids : List Text
  pub index : NotebookIndex
  pub ancestry : List (Text × List Text)

unfoldable pub ancestry_of : Text → List (Text × List Text) → Option (List Text)
ancestry_of id [] = none
ancestry_of id ((key, chain) ∷ rest) = if text_eq key id then some chain else ancestry_of id rest

abbrev nonempty_path : Option Text → Option Text
nonempty_path (some (c ∷ s)) = some (c ∷ s)
nonempty_path _ = none

unfoldable pub path_of : HierarchySnapshot → Text → Option Text
path_of snapshot id = nonempty_path (resolve_path snapshot.index id)

abbrev has_ancestor : Text → Option (List Text) → Bool
has_ancestor id none = false
has_ancestor id (some chain) = any (text_eq id) chain

unfoldable pub is_ancestor : HierarchySnapshot → Text → Text → Bool
is_ancestor snapshot ancestor id = has_ancestor ancestor (ancestry_of id snapshot.ancestry)

unfoldable pub depth_of : HierarchySnapshot → Text → Option ℕ
depth_of snapshot id = do chain ← ancestry_of id snapshot.ancestry; some (length chain)

abbrev raw_record : JsValue → RawRecord
raw_record v = record {
  raw_id = text_of (own_field v (codes "id"));
  raw_title = text_of (own_field v (codes "title"));
  raw_parent = text_of (own_field v (codes "parentId"));
}

abbrev index_or_none : Option (Built NotebookIndex) → Option NotebookIndex
index_or_none (some (built index)) = some index
index_or_none _ = none

abbrev snapshot_from : ℕ → List JsValue → Parents → Option HierarchySnapshot
snapshot_from fuel records parents = do
  check (all (parent_is_known parents) parents)
  index ← index_or_none (build_notebook_index fuel (map raw_record records))
  ancestry ← all_chains parents parents
  some (record { notebook_ids = map (λ p. p.0) parents; index = index; ancestry = ancestry })

-- `loadSnapshot`: `records` is what listing the notebooks gave, and none where it cannot be asked,
-- throws or gives no array. The index is built with the fuel of its walk.
unfoldable pub load_snapshot : ℕ → Option (List JsValue) → Option HierarchySnapshot
load_snapshot fuel records = do
  vs ← records
  check (leb (length vs) max_hierarchy_records)
  parents ← read_parents [] vs
  snapshot_from fuel vs parents
