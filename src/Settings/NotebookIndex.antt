-- ===== src/Settings/NotebookIndex.antt =====
-- settings/notebook-index.ts: the paths of notebooks. A `Map` is an association list with the newest
-- entry first. Folding is that of ASCII, which titles are. The logger's warnings are left out. The walk
-- to the root takes fuel: `none` outside is that the fuel ran out.
pub mod Walk
pub mod RoundTrip
mod Tests
use nook_bridge.Common.{
  ℕ, zero, suc, ◌+◌, Bool, true, false, not, ◌&&◌, ◌||◌, Option, none, some, List, [], ◌∷◌, ◌++◌,
  map, Text, text_eq, code_points, leb, ltb, ◌==◌, if◌then◌else◌, length, any, all, ◌≡◌, ◌⊎◌, inl,
  inr, refl,
}

pub data NotebookIndexErrorCode : Type 0 where
  notebook_cycle notebook_duplicate_id notebook_duplicate_path notebook_invalid_id
        notebook_invalid_title :
      NotebookIndexErrorCode

pub data Built {ℓ} (A : Type ℓ) : Type ℓ where
  built : A → Built A
  refused : NotebookIndexErrorCode → Built A

pub Built-cases {ℓ} :
    {A : Type ℓ} (b : Built A)
    → ((e : NotebookIndexErrorCode) × (b ≡ refused e)) ⊎ ((a : A) × (b ≡ built a))
Built-cases (refused e) = inl (e, refl)
Built-cases (built a) = inr (a, refl)

-- A record as it is given; `none` is a value that is no string.
pub record RawRecord : Type 0 where
  pub raw_id : Option Text
  pub raw_title : Option Text
  pub raw_parent : Option Text

pub record NotebookRecord : Type 0 where
  pub id : Text
  pub title : Text
  pub parent_id : Option Text

abbrev pub max_id_bytes : ℕ
max_id_bytes = 256

abbrev pub is_title_point : ℕ → Bool
is_title_point c = leb 0x20 c && leb c 0x7e

unfoldable pub is_valid_title : Text → Bool
is_valid_title value = not (length value == 0) && all is_title_point (code_points value)

-- A unit that `STRICT_ID_PATTERN` allows.
abbrev pub is_strict_unit : ℕ → Bool
is_strict_unit u =
    (leb 0x41 u && leb u 0x5a)
    || (leb 0x61 u && leb u 0x7a)
    || (leb 0x30 u && leb u 0x39)
    || u == 0x5f
    || u == 0x2d

unfoldable pub is_valid_id : Text → Bool
is_valid_id value =
    not (length value == 0) && leb (length value) max_id_bytes && all is_strict_unit value

abbrev pub with_id_and_title : Option Text → Option Text → Option Text → Built NotebookRecord
with_id_and_title none title parent = refused notebook_invalid_id
with_id_and_title (some id) none parent =
    if is_valid_id id then refused notebook_invalid_title else refused notebook_invalid_id
with_id_and_title (some id) (some title) parent =
    if is_valid_id id
    then (if is_valid_title title
        then built (record { id = id; title = title; parent_id = parent })
        else refused notebook_invalid_title)
    else refused notebook_invalid_id

abbrev pub validate_record : RawRecord → Built NotebookRecord
validate_record r = with_id_and_title r.raw_id r.raw_title r.raw_parent

abbrev pub consed : Built NotebookRecord → Built (List NotebookRecord) → Built (List NotebookRecord)
consed (refused e) rest = refused e
consed (built r) (refused e) = refused e
consed (built r) (built rs) = built (r ∷ rs)

-- Step 1.
unfoldable pub validate_records : List RawRecord → Built (List NotebookRecord)
validate_records [] = built []
validate_records (r ∷ rs) = consed (validate_record r) (validate_records rs)

unfoldable pub lookup : Text → List (Text × Text) → Option Text
lookup key [] = none
lookup key ((k, v) ∷ entries) = if text_eq k key then some v else lookup key entries

-- `recordById.get`.
unfoldable pub find_record : Text → List NotebookRecord → Option NotebookRecord
find_record key [] = none
find_record key (r ∷ rs) = if text_eq r.id key then some r else find_record key rs

abbrev pub includes_id : List Text → Text → Bool
includes_id ids key = any (λ k. text_eq k key) ids

-- Step 2: an id that was there before.
unfoldable pub has_duplicate : List Text → List NotebookRecord → Bool
has_duplicate seen [] = false
has_duplicate seen (r ∷ rs) = includes_id seen r.id || has_duplicate (r.id ∷ seen) rs

-- `segments.join("/")`.
unfoldable pub join_segments : List Text → Text
join_segments [] = []
join_segments (s ∷ []) = s
join_segments (s ∷ t ∷ segments) = s ++ (b'/' ∷ join_segments (t ∷ segments))

abbrev pub onto_cached : Text → List Text → Text
onto_cached cached [] = cached
onto_cached cached (s ∷ segments) = cached ++ (b'/' ∷ join_segments (s ∷ segments))

-- The record of the parent, if there is a parent and the list has it.
abbrev pub parent_in : List NotebookRecord → Option Text → Option NotebookRecord
parent_in records none = none
parent_in records (some parent) = find_record parent records

-- The loop of `resolvePath`; `segments` is from the root down.
unfoldable pub walk :
    ℕ
    → List NotebookRecord
    → List (Text × Text)
    → List Text
    → List Text
    → NotebookRecord
    → Option (Built Text)
walk zero records paths visiting segments cursor = none
walk (suc fuel) records paths visiting segments cursor =
    if includes_id visiting cursor.id
    then some (refused notebook_cycle)
    else elim (lookup cursor.id paths) [
      | some cached ↦ some (built (onto_cached cached segments))
      | none ↦ elim (parent_in records cursor.parent_id) [
        | none ↦ some (built (join_segments (cursor.title ∷ segments)))
        | some parent ↦
            walk fuel records paths (cursor.id ∷ visiting) (cursor.title ∷ segments) parent
      ]
    ]

abbrev pub fold_unit : ℕ → ℕ
fold_unit u = if leb 0x41 u && leb u 0x5a then u + 0x20 else u

-- `asciiFold`.
unfoldable pub ascii_fold : Text → Text
ascii_fold value = map fold_unit value

pub record NotebookIndex : Type 0 where
  pub path_by_id : List (Text × Text)
  pub id_by_folded_path : List (Text × Text)

abbrev pub add_unless : Option Text → NotebookIndex → Text → Text → Built NotebookIndex
add_unless (some other) index id path = refused notebook_duplicate_path
add_unless none index id path = built (record {
  path_by_id = (id, path) ∷ index.path_by_id;
  id_by_folded_path = (ascii_fold path, id) ∷ index.id_by_folded_path;
})

abbrev pub register : NotebookIndex → Text → Text → Built NotebookIndex
register index id path = add_unless (lookup (ascii_fold path) index.id_by_folded_path) index id path

-- Steps 3 and 4.
unfoldable pub add_paths :
    ℕ → List NotebookRecord → NotebookIndex → List NotebookRecord → Option (Built NotebookIndex)
add_paths fuel records index [] = some (built index)
add_paths fuel records index (r ∷ rs) = elim (walk fuel records index.path_by_id [] [] r) [
  | none ↦ none
  | some (refused e) ↦ some (refused e)
  | some (built path) ↦ elim (register index r.id path) [
    | refused e ↦ some (refused e)
    | built index' ↦ add_paths fuel records index' rs
  ]
]

abbrev pub no_paths : NotebookIndex
no_paths = record { path_by_id = []; id_by_folded_path = [] }

abbrev pub build_valid : ℕ → Built (List NotebookRecord) → Option (Built NotebookIndex)
build_valid fuel (refused e) = some (refused e)
build_valid fuel (built records) =
    if has_duplicate [] records
    then some (refused notebook_duplicate_id)
    else add_paths fuel records no_paths records

-- `buildNotebookIndex`.
unfoldable pub build_notebook_index : ℕ → List RawRecord → Option (Built NotebookIndex)
build_notebook_index fuel raw = build_valid fuel (validate_records raw)

-- The accessors `resolvePath`, `resolveId` and `size`.
unfoldable pub resolve_path : NotebookIndex → Text → Option Text
resolve_path index id = lookup id index.path_by_id

unfoldable pub resolve_id : NotebookIndex → Text → Option Text
resolve_id index path = lookup (ascii_fold path) index.id_by_folded_path

unfoldable pub size : NotebookIndex → ℕ
size index = length index.path_by_id
