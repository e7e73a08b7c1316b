-- ===== src/Settings/NotebookIndex/RoundTrip.antt =====
-- settings/notebook-index.ts: a path that the index gives for an id leads back to the id.
use nook_bridge.Common.{
  ℕ, ◌≡◌, refl, sym, ◌∙◌, Option, none, some, List, [], ◌∷◌, Text, text_eq, text_eq_refl,
  text_eq_sound, Bool-cases, Option-cases, inl, inr, arith,
}
use nook_bridge.Settings.NotebookIndex.{
  Built, built, refused, RawRecord, NotebookRecord, NotebookIndex, notebook_duplicate_id,
  Built-cases, lookup, ascii_fold, walk, register, add_paths, no_paths, build_notebook_index,
  resolve_path, resolve_id, validate_records, has_duplicate,
}

-- Every path of the index is registered under its folding.
abbrev IsInverse : NotebookIndex → Type 0
IsInverse index =
    (id path : Text) → resolve_path index id ≡ some path → resolve_id index path ≡ some id

-- Answers of a lookup, and of a construction.
abbrev IsFound : Option Text → Text → Type 0
IsFound o t = o ≡ some t

abbrev IsBuilt : Built NotebookIndex → NotebookIndex → Type 0
IsBuilt b index = b ≡ built index

abbrev IsDone : Option (Built NotebookIndex) → NotebookIndex → Type 0
IsDone o index = o ≡ some (built index)

lookup-add :
    (key new : Text) (v w : Text) (entries : List (Text × Text))
    → lookup new entries ≡ none
    → lookup key entries ≡ some v
    → lookup key ((new, w) ∷ entries) ≡ some v
unfolding lookup
lookup-add key new v w entries absent found = elim (Bool-cases (text_eq new key)) [
  | inl same ↦
      let clash : IsFound none v = sym absent ∙ rw (text_eq_sound new key same) found in
      absurd (ground arith)
  | inr other ↦ rw other found
]

added-IsInverse :
    (index : NotebookIndex) (id path : Text)
    → IsInverse index
    → lookup (ascii_fold path) index.id_by_folded_path ≡ none
    → IsInverse (record {
      path_by_id = (id, path) ∷ index.path_by_id;
      id_by_folded_path = (ascii_fold path, id) ∷ index.id_by_folded_path;
    })
unfolding resolve_path resolve_id lookup
added-IsInverse index id path h free key found e = elim (Bool-cases (text_eq id key)) [
  | inl here ↦
      let hit : IsFound (some path) found = rw here at e in
      let same : path ≡ found = cc in
      let named : id ≡ key = text_eq_sound id key here in
      rw (← same, text_eq_refl (ascii_fold path), named) refl
  | inr other ↦
      let old : IsFound (lookup key index.path_by_id) found = rw other at e in
      lookup-add (ascii_fold found) (ascii_fold path) key id index.id_by_folded_path free
        (h key found old)
]

register-IsInverse :
    (index index' : NotebookIndex) (id path : Text)
    → IsInverse index
    → register index id path ≡ built index'
    → IsInverse index'
unfolding resolve_path resolve_id lookup
register-IsInverse index index' id path h e =
    elim (Option-cases (lookup (ascii_fold path) index.id_by_folded_path)) [
      | inr (other, taken) ↦
          let clash : IsBuilt (refused _) index' = rw taken at e in absurd (ground arith)
      | inl free ↦
          let done : IsBuilt
              (built (record {
                path_by_id = (id, path) ∷ index.path_by_id;
                id_by_folded_path = (ascii_fold path, id) ∷ index.id_by_folded_path;
              }))
              index' =
            rw free at e in
          let same : record {
            path_by_id = (id, path) ∷ index.path_by_id;
            id_by_folded_path = (ascii_fold path, id) ∷ index.id_by_folded_path;
          }
              ≡ index' =
            cc in
          rw (← same) (added-IsInverse index id path h free)
    ]

add_paths-IsInverse :
    (fuel : ℕ) (records : List NotebookRecord) (index index' : NotebookIndex)
    (rs : List NotebookRecord)
    → IsInverse index
    → add_paths fuel records index rs ≡ some (built index')
    → IsInverse index'
unfolding add_paths
add_paths-IsInverse fuel records index index' [] h e =
    let same : index ≡ index' = ground arith in rw (← same) h
add_paths-IsInverse fuel records index index' (r ∷ rs) h e =
    elim (Option-cases (walk fuel records index.path_by_id [] [] r)) [
      | inl stuck ↦ absurd (ground arith)
      | inr (refused bad, walked) ↦ absurd (ground arith)
      | inr (built path, walked) ↦ elim (Built-cases (register index r.id path)) [
        | inl (bad, taken) ↦ absurd (ground arith)
        | inr (index'', added) ↦
            add_paths-IsInverse fuel records index'' index' rs
              (register-IsInverse index index'' r.id path h added) (ground arith)
      ]
    ]

no_paths-IsInverse : IsInverse no_paths
unfolding resolve_path lookup
no_paths-IsInverse id path e = absurd (ground arith)

-- In an index that was built, the path of an id leads back to the id.
pub resolve_id-resolve_path :
    (fuel : ℕ) (raw : List RawRecord) (index : NotebookIndex) (id path : Text)
    → build_notebook_index fuel raw ≡ some (built index)
    → resolve_path index id ≡ some path
    → resolve_id index path ≡ some id
unfolding build_notebook_index
resolve_id-resolve_path fuel raw index id path e found = elim (Built-cases (validate_records raw)) [
  | inl (bad, refusal) ↦
      let clash : IsDone (some (refused bad)) index = rw refusal at e in absurd (ground arith)
  | inr (records, fine) ↦ elim (Bool-cases (has_duplicate [] records)) [
    | inl twice ↦
        let clash : IsDone (some (refused notebook_duplicate_id)) index = rw (fine, twice) at e in
        absurd (ground arith)
    | inr once ↦
        let done : IsDone (add_paths fuel records no_paths records) index = rw (fine, once) at e in
        add_paths-IsInverse fuel records no_paths index records no_paths-IsInverse done id path
          found
  ]
]
