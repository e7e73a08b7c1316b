-- ===== src/Settings/NotebookIndex/Walk.antt =====
-- settings/notebook-index.ts: the walk to the root ends, with more fuel than there are records.
use nook_bridge.Common.{
  ℕ, zero, suc, ◌≤◌, ◌<◌, ◌≡◌, refl, Bool, false, not, Option, none, some, List, [], ◌∷◌, Text,
  text_eq, text_eq_refl, count, length, Bool-cases, Option-cases, inl, inr, arith,
}
use nook_bridge.Settings.NotebookIndex.{
  Built-cases, notebook_cycle, notebook_duplicate_id, onto_cached, join_segments, Built, built,
  refused, RawRecord, NotebookRecord, NotebookIndex, lookup, find_record, includes_id, parent_in,
  walk, register, add_paths, build_notebook_index, validate_records, validate_record, has_duplicate,
  no_paths,
}

-- The records that the walk has not visited.
abbrev fresh : List Text → NotebookRecord → Bool
fresh visiting r = not (includes_id visiting r.id)

count-fresh-le :
    (records : List NotebookRecord) (visiting : List Text) (id : Text)
    → count (fresh (id ∷ visiting)) records ≤ count (fresh visiting) records
count-fresh-le [] visiting id = omega arith
count-fresh-le (r ∷ rs) visiting id = ground (arith, count-fresh-le rs visiting id)

abbrev IsRecord : Option NotebookRecord → NotebookRecord → Type 0
IsRecord o r = o ≡ some r

-- A visit to a listed record that was not visited leaves fewer of them.
count-fresh :
    (records : List NotebookRecord) (visiting : List Text) (key : Text) (cursor : NotebookRecord)
    → find_record key records ≡ some cursor
    → includes_id visiting cursor.id ≡ false
    → count (fresh (cursor.id ∷ visiting)) records < count (fresh visiting) records
unfolding find_record
count-fresh [] visiting key cursor h new = absurd (ground arith)
count-fresh (r ∷ rs) visiting key cursor h new = elim (Bool-cases (text_eq r.id key)) [
  | inl here ↦
      let hit : IsRecord (some r) cursor = rw here at h in
      let same : r ≡ cursor = cc in
      rw same (ground (arith, text_eq_refl cursor.id, count-fresh-le rs visiting cursor.id, new))
  | inr later ↦ ground (arith, count-fresh rs visiting key cursor)
]

count-fresh-all :
    (records : List NotebookRecord) (visiting : List Text)
    → count (fresh visiting) records ≤ length records
count-fresh-all [] visiting = omega arith
count-fresh-all (r ∷ rs) visiting = ground (arith, count-fresh-all rs visiting)

parent_in-found :
    (records : List NotebookRecord) (parent : Option Text) (r : NotebookRecord)
    → parent_in records parent ≡ some r
    → (key : Text) × (find_record key records ≡ some r)
parent_in-found records none r h = absurd (ground arith)
parent_in-found records (some key) r h = (key, h)

abbrev Ends : Option (Built Text) → Type 0
Ends o = (r : Built Text) × (o ≡ some r)

-- A walk ends if it ends from the parent, wherever it goes on.
walk-step :
    (fuel : ℕ) (records : List NotebookRecord) (paths : List (Text × Text))
    (visiting segments : List Text) (cursor : NotebookRecord)
    → ((parent : NotebookRecord) (key : Text)
        → includes_id visiting cursor.id ≡ false
        → find_record key records ≡ some parent
        → Ends (walk fuel records paths (cursor.id ∷ visiting) (cursor.title ∷ segments) parent))
    → Ends (walk (suc fuel) records paths visiting segments cursor)
unfolding walk
walk-step fuel records paths visiting segments cursor more =
    elim (Bool-cases (includes_id visiting cursor.id)) [
      | inl cycle ↦ (refused notebook_cycle, rw cycle refl)
      | inr new ↦ elim (Option-cases (lookup cursor.id paths)) [
        | inr (cached, known) ↦ (built (onto_cached cached segments), ground (arith, new, known))
        | inl unknown ↦ elim (Option-cases (parent_in records cursor.parent_id)) [
          | inl root ↦
              (built (join_segments (cursor.title ∷ segments)), ground (arith, new, unknown, root))
          | inr (parent, up) ↦
              let (key, found) = parent_in-found records cursor.parent_id parent up in
              let (r, e) = more parent key new found in (r, ground (arith, new, unknown, up, e))
        ]
      ]
    ]

walk_total :
    (fuel : ℕ) (records : List NotebookRecord) (paths : List (Text × Text))
    (visiting segments : List Text) (key : Text) (cursor : NotebookRecord)
    → find_record key records ≡ some cursor
    → count (fresh visiting) records < fuel
    → Ends (walk fuel records paths visiting segments cursor)
walk_total zero records paths visiting segments key cursor h le = absurd (omega arith)
walk_total (suc fuel) records paths visiting segments key cursor h le =
    walk-step fuel records paths visiting segments cursor (λ parent key' new found.
      walk_total fuel records paths (cursor.id ∷ visiting) (cursor.title ∷ segments) key' parent
        found (omega (arith, count-fresh records visiting key cursor h new)))

walk_total_start :
    (fuel : ℕ) (records : List NotebookRecord) (paths : List (Text × Text)) (r : NotebookRecord)
    → suc (length records) < fuel
    → Ends (walk fuel records paths [] [] r)
walk_total_start zero records paths r le = absurd (omega arith)
walk_total_start (suc fuel) records paths r le =
    walk-step fuel records paths [] [] r (λ parent key new found.
      walk_total fuel records paths (r.id ∷ []) (r.title ∷ []) key parent found
        (omega (arith, count-fresh-all records (r.id ∷ []))))

abbrev AreRecords : Built (List NotebookRecord) → List NotebookRecord → Type 0
AreRecords b records = b ≡ built records

abbrev Answered : Option (Built NotebookIndex) → Type 0
Answered o = (b : Built NotebookIndex) × (o ≡ some b)

add_paths_total :
    (fuel : ℕ) (records : List NotebookRecord) (index : NotebookIndex) (rs : List NotebookRecord)
    → suc (length records) < fuel
    → Answered (add_paths fuel records index rs)
unfolding add_paths
add_paths_total fuel records index [] le = (built index, refl)
add_paths_total fuel records index (r ∷ rs) le =
    let (b, walked) = walk_total_start fuel records index.path_by_id r le in
    elim b
        as (λ b.
          walk fuel records index.path_by_id [] [] r ≡ some b
          → Answered (add_paths fuel records index (r ∷ rs))) [
            | refused e ↦ λ w. (refused e, ground (arith, w))
            | built path ↦ λ w. elim (Built-cases (register index r.id path)) [
              | inl (e, taken) ↦ (refused e, ground (arith, w, taken))
              | inr (index', added) ↦
                  let (b', e) = add_paths_total fuel records index' rs le in
                  (b', ground (arith, w, added, e))
            ]
          ]
      walked

length-validate_records :
    (raw : List RawRecord) (records : List NotebookRecord)
    → validate_records raw ≡ built records
    → length records ≡ length raw
unfolding validate_records
length-validate_records [] records h = ground arith
length-validate_records (r ∷ rs) records h = elim (Built-cases (validate_record r)) [
  | inl (e, bad) ↦ let clash : AreRecords (refused e) records = rw bad at h in absurd (ground arith)
  | inr (first, fine) ↦ elim (Built-cases (validate_records rs)) [
    | inl (e, bad) ↦
        let clash : AreRecords (refused e) records = rw (fine, bad) at h in absurd (ground arith)
    | inr (rest, good) ↦
        let whole : AreRecords (built (first ∷ rest)) records = rw (fine, good) at h in
        let same : first ∷ rest ≡ records = cc in
        rw (← same) (omega (arith, length-validate_records rs rest good))
  ]
]

-- Whatever records are given, cyclic ones included, the index is built or refused, with more fuel than
-- one more than there are records.
pub build_notebook_index_total :
    (fuel : ℕ) (raw : List RawRecord)
    → suc (length raw) < fuel
    → (b : Built NotebookIndex) × (build_notebook_index fuel raw ≡ some b)
unfolding build_notebook_index
build_notebook_index_total fuel raw le = elim (Built-cases (validate_records raw)) [
  | inl (e, bad) ↦ (refused e, rw bad refl)
  | inr (records, fine) ↦ elim (Bool-cases (has_duplicate [] records)) [
    | inl twice ↦ (refused notebook_duplicate_id, rw (fine, twice) refl)
    | inr once ↦
        let (b, e) =
          add_paths_total fuel records no_paths records
            (omega (arith, length-validate_records raw records fine)) in
        (b, rw (fine, once) e)
  ]
]
