-- ===== src/Service/Discovery/Shown.antt =====
-- service/discovery-visibility.ts: what is known of everything that a search or a list shows.
use nook_bridge.Common.{
  ℕ, ◌≡◌, ◌⊎◌, refl, ap, ◌∙◌, Bool, true, ◌||◌, Option, none, some, List, [], ◌∷◌, Text, codes,
  text_eq, text_eq_sound, arith, Bool-cases, inl, inr, any, all, All, Among, All-keep_tested,
  bind-some, check-some, ◌>>=◌,
}
use nook_bridge.Common.Js.{JsValue}
use nook_bridge.Service.Discovery.Hierarchy.{
  DiscoveryNote, HitSource, note, notebook, DiscoverySearchHit, DiscoverySource, MayRead, own_field,
  HierarchySnapshot, path_of, is_ancestor, load_snapshot,
}
use nook_bridge.Service.Discovery.{
  Membership, claimants_of, build_membership, deepest_of, holders_of, is_only, path_under,
  governing_path, or_false, unlocked, decide_note, is_true, is_undefined, decide_root_note,
  decide_by, filter_note_list, notebook_visible, or_empty_list, note_hits, shows, search_hits,
}

-- The path of the one notebook that holds a note directly, of which all other notebooks that list
-- the note are ancestors.
pub record Governs (source : DiscoverySource) (snapshot : HierarchySnapshot) (note_id : Text)
    (claimants : List Text) (path : Text) : Type 0 where
  pub deepest : Text
  pub has_note : Text → Text → Option Bool
  pub asked : source.has_note_in_notebook ≡ some has_note
  pub only_holder : holders_of has_note note_id claimants ≡ some (deepest ∷ [])
  pub on_one_line : all (λ c. text_eq c deepest || is_ancestor snapshot c deepest) claimants ≡ true
  pub named : path_of snapshot deepest ≡ some path

only_is : (id : Text) (holders : List Text) → is_only id holders ≡ true → holders ≡ id ∷ []
only_is id [] h = absurd (ground arith)
only_is id (x ∷ []) h = ap (λ t. t ∷ []) (text_eq_sound x id h)
only_is id (x ∷ y ∷ zs) h = absurd (ground arith)

path_under-Governs :
    (source : DiscoverySource) (snapshot : HierarchySnapshot) (note_id : Text)
    (claimants : List Text) (o : Option (Text × ℕ)) (path : Text)
    → path_under source snapshot note_id claimants o ≡ some path
    → Governs source snapshot note_id claimants path
path_under-Governs source snapshot note_id claimants none path h = absurd (ground arith)
path_under-Governs source snapshot note_id claimants (some (d, depth)) path h =
    let (line, h1) = check-some _ _ path h in
    let (has_note, asked, h2) = bind-some source.has_note_in_notebook _ path h1 in
    let (holders, held, h3) = bind-some (holders_of has_note note_id claimants) _ path h2 in
    let (only, named) = check-some (is_only d holders) _ path h3 in
    record {
      deepest = d;
      has_note = has_note;
      asked = asked;
      only_holder = held ∙ ap some (only_is d holders only);
      on_one_line = line;
      named = named;
    }

governing_path-Governs :
    (source : DiscoverySource) (snapshot : HierarchySnapshot) (note_id : Text)
    (claimants : List Text) (path : Text)
    → governing_path source snapshot note_id claimants ≡ some path
    → Governs source snapshot note_id claimants path
unfolding governing_path
governing_path-Governs source snapshot note_id claimants path h =
    let (o, e, rest) = bind-some (deepest_of snapshot none claimants) _ path h in
    path_under-Governs source snapshot note_id claimants o path rest

or_false_back : (o : Option Bool) → or_false o ≡ true → o ≡ some true
or_false_back none h = absurd (ground arith)
or_false_back (some b) h = ap some h

-- Nothing of a chain that stops, and what the rest of it gives.
All-or_empty {ℓ κ} :
    {A : Type ℓ} {B : Type κ} (P : B → Type 0) (o : Option A) (k : A → Option (List B))
    → ((a : A) → o ≡ some a → All P (or_empty_list (k a)))
    → All P (or_empty_list (o >>= k))
All-or_empty P none k f = tt
All-or_empty P (some a) k f = f a refl

module _ (source : DiscoverySource) (may_read : MayRead) (snapshot : HierarchySnapshot)
    (membership : Membership) where
  -- A note that some notebook lists is shown for its governing path, and one that none lists for its
  -- confirmed place at the root; it is unlocked, and the settings allow to read it there.
  abbrev pub NoteAllowed : DiscoveryNote → Type 0
  NoteAllowed n =
      ((claimants : List Text) × (path : Text) × (claimants_of n.id membership ≡ some claimants)
        × (unlocked source n.id ≡ some true)
        × Governs source snapshot n.id claimants path
        × (may_read (record { notebook_path = some path; note_title = some n.title }) ≡ some true))
      ⊎ ((metadata : JsValue) × (claimants_of n.id membership ≡ none)
          × (source.note_metadata n.id ≡ some metadata)
          × (is_true (own_field metadata (codes "notebookAbsenceConfirmed")) ≡ true)
          × (is_undefined (own_field metadata (codes "notebookId")) ≡ true)
          × (unlocked source n.id ≡ some true)
          × (may_read (record { notebook_path = none; note_title = some n.title }) ≡ some true))

  note_decided :
      (n : DiscoveryNote) (claimants : List Text)
      → decide_note source may_read snapshot n claimants ≡ true
      → (path : Text) × (unlocked source n.id ≡ some true)
        × Governs source snapshot n.id claimants path
        × (may_read (record { notebook_path = some path; note_title = some n.title }) ≡ some true)
  unfolding decide_note
  note_decided n claimants h =
      let yields = or_false_back _ h in
      let (free, e, h1) = bind-some (unlocked source n.id) _ true yields in
      let (is_free, h2) = check-some free _ true h1 in
      let (path, g, asked) = bind-some (governing_path source snapshot n.id claimants) _ true h2 in
      (
        path,
        e ∙ ap some is_free,
        governing_path-Governs source snapshot n.id claimants path g,
        asked,
      )

  root_decided :
      (n : DiscoveryNote)
      → decide_root_note source may_read n ≡ true
      → (metadata : JsValue) × (source.note_metadata n.id ≡ some metadata)
        × (is_true (own_field metadata (codes "notebookAbsenceConfirmed")) ≡ true)
        × (is_undefined (own_field metadata (codes "notebookId")) ≡ true)
        × (unlocked source n.id ≡ some true)
        × (may_read (record { notebook_path = none; note_title = some n.title }) ≡ some true)
  unfolding decide_root_note
  root_decided n h =
      let yields = or_false_back _ h in
      let (metadata, e, h1) = bind-some (source.note_metadata n.id) _ true yields in
      let (confirmed, h2) = check-some _ _ true h1 in
      let (absent, h3) = check-some _ _ true h2 in
      let (free, u, h4) = bind-some (unlocked source n.id) _ true h3 in
      let (is_free, asked) = check-some free _ true h4 in
      (metadata, e, confirmed, absent, u ∙ ap some is_free, asked)

  decided-NoteAllowed :
      (n : DiscoveryNote) (o : Option (List Text))
      → claimants_of n.id membership ≡ o
      → decide_by source may_read snapshot n o ≡ true
      → NoteAllowed n
  decided-NoteAllowed n (some claimants) e h =
      let (path, a, b, c) = note_decided n claimants h in inl (claimants, path, e, a, b, c)
  decided-NoteAllowed n none e h =
      let (metadata, a, b, c, d, f) = root_decided n h in inr (metadata, e, a, b, c, d, f)

  filter_note_list-NoteAllowed :
      (notes : List DiscoveryNote)
      → All
          (λ n. Among n notes × NoteAllowed n)
          (filter_note_list source may_read membership snapshot notes)
  unfolding filter_note_list
  filter_note_list-NoteAllowed notes =
      All-keep_tested (λ n. Among n notes × NoteAllowed n) _ notes
        (λ n m h. (m, decided-NoteAllowed n (claimants_of n.id membership) refl h))

  -- A note hit shares the id of a note that was found and may be shown; a notebook may be read.
  abbrev pub HitAllowed : List DiscoveryNote → DiscoverySearchHit → HitSource → Type 0
  HitAllowed notes hit note = (n : DiscoveryNote) × Among n notes × (n.id ≡ hit.id) × NoteAllowed n
  HitAllowed notes hit notebook =
      (path : Text) × (path_of snapshot hit.id ≡ some path)
      × (may_read (record { notebook_path = some path; note_title = none }) ≡ some true)

  visible_one :
      (notes visible : List DiscoveryNote) (id : Text)
      → All (λ n. Among n notes × NoteAllowed n) visible
      → any (λ n. text_eq n.id id) visible ≡ true
      → (n : DiscoveryNote) × Among n notes × (n.id ≡ id) × NoteAllowed n
  visible_one notes [] id h e = absurd (ground arith)
  visible_one notes (n ∷ ns) id ((among, here), rest) e = elim (Bool-cases (text_eq n.id id)) [
    | inl same ↦ (n, among, text_eq_sound n.id id same, here)
    | inr other ↦ visible_one notes ns id rest (rw other at e)
  ]

  shows-HitAllowed :
      (notes : List DiscoveryNote) (hit : DiscoverySearchHit) (kind : HitSource)
      → shows may_read snapshot
          (filter_note_list source may_read membership snapshot notes)
          hit
          kind
        ≡ true
      → HitAllowed notes hit kind
  unfolding notebook_visible
  shows-HitAllowed notes hit note h =
      visible_one notes (filter_note_list source may_read membership snapshot notes) hit.id
        (filter_note_list-NoteAllowed notes) h
  shows-HitAllowed notes hit notebook h =
      bind-some (path_of snapshot hit.id) _ true (or_false_back _ h)

module _ (fuel : ℕ) (source : DiscoverySource) (may_read : MayRead)
    (records : Option (List JsValue)) where
  -- Every hit that a search shows was allowed on a hierarchy that loaded whole: a notebook has a
  -- path that the settings allow to read, and a note shares its id with a note among the hits that
  -- is unlocked and that the settings allow to read, at the path of its one direct notebook, of
  -- which all others that list it are ancestors, or at its confirmed place outside all notebooks.
  pub search_hits_are_allowed :
      (raw : List DiscoverySearchHit)
      → All
          (λ hit.
            (snapshot : HierarchySnapshot) × (membership : Membership) × (load_snapshot fuel records
              ≡ some snapshot)
            × (build_membership source snapshot ≡ some membership)
            × HitAllowed source may_read snapshot membership (note_hits raw) hit hit.source)
          (search_hits fuel source may_read records raw)
  unfolding search_hits
  search_hits_are_allowed raw = All-or_empty _ (load_snapshot fuel records) _ (λ snapshot loaded.
      All-or_empty _ (build_membership source snapshot) _ (λ membership listed.
        All-keep_tested _ _ raw (λ hit m h. (
          snapshot,
          membership,
          loaded,
          listed,
          shows-HitAllowed source may_read snapshot membership (note_hits raw) hit hit.source h,
        ))))
