-- ===== src/Sync/PersistentStore/Refusal.antt =====
-- core/notesnook-sync-state-store.ts: what the persistent store takes and gives back, and what it
-- refuses of what the coordinator gives to it.
use nook_bridge.Common.{
  ℕ, ◌≤◌, ◌<◌, true, false, Option, none, some, List, [], ◌∷◌, ◌≡◌, refl, sym, ap, ◌∙◌, text_eq,
  leb, ltb, if◌then◌else◌, length, length-map, any, map, count, arith, Bool-cases, Option-cases,
  inl, inr,
}
use nook_bridge.Common.Js.{number, nat, property, items-from_items, safe_from}
use nook_bridge.Sync.Types.{
  SyncPendingMarker, err, sync_failed, max_pending_markers, parse_operation-name, parse_origin-name,
}
use nook_bridge.Sync.Store.{SyncStore, marker_value, state_value, greatest}
use nook_bridge.Sync.Queue.{Coordinator, install}
use nook_bridge.Sync.Approvals.{approve, approve_through, newly_approved}
use nook_bridge.Sync.PersistentStore.{
  Storage, has_exactly_keys, marker_of, normalize_marker, consed, normalize_markers,
  normalize_state, save, load, loaded, normal_value,
}

unapproved : SyncPendingMarker → SyncPendingMarker
unapproved m = record m { approved = false }

normalize_marker-approved :
    (m : SyncPendingMarker) → m.approved ≡ true → normalize_marker (marker_value m) ≡ none
unfolding normalize_marker has_exactly_keys text_eq
normalize_marker-approved m h = rw h refl

normalize_marker-plain :
    (m : SyncPendingMarker)
    → m.approved ≡ false
    → normalize_marker (marker_value m)
      ≡ marker_of
          (some m.origin)
          (some m.operation)
          (some m.note_id)
          (safe_from 1 (number (nat m.sequence)))
unfolding normalize_marker has_exactly_keys text_eq property
normalize_marker-plain m h =
    rw (h, parse_origin-name m.origin, parse_operation-name m.operation) refl

abbrev IsMarker : Option SyncPendingMarker → SyncPendingMarker → Type 0
IsMarker x m = x ≡ some m

abbrev AreMarkers : Option (List SyncPendingMarker) → List SyncPendingMarker → Type 0
AreMarkers x ms = x ≡ some ms

normalize_marker_sound :
    (m m' : SyncPendingMarker) → normalize_marker (marker_value m) ≡ some m' → m' ≡ m
normalize_marker_sound m m' h = elim (Bool-cases m.approved) [
  | inl approved ↦
      let clash : IsMarker none m' = sym (normalize_marker-approved m approved) ∙ h in
      absurd (ground arith)
  | inr plain ↦ let open_ = sym (normalize_marker-plain m plain) ∙ h in ground (arith, open_, plain)
]

normalize_markers_sound :
    (ms ms' : List SyncPendingMarker)
    → normalize_markers (map marker_value ms) ≡ some ms'
    → ms' ≡ ms
unfolding normalize_markers
normalize_markers_sound [] ms' h = ground arith
normalize_markers_sound (m ∷ ms) ms' h = elim (Option-cases (normalize_marker (marker_value m))) [
  | inl refused ↦ let clash : AreMarkers none ms' = rw refused at h in absurd (ground arith)
  | inr (m', e) ↦ elim (Option-cases (normalize_markers (map marker_value ms))) [
    | inl refused ↦
        let clash : AreMarkers (consed (some m') none) ms' = rw (e, refused) at h in
        absurd (ground arith)
    | inr (rest, e') ↦
        let whole : AreMarkers (some (m' ∷ rest)) ms' = rw (e, e') at h in
        let first = normalize_marker_sound m m' e in
        let others = normalize_markers_sound ms rest e' in cc
  ]
]

normalize_state_opens :
    (ms : List SyncPendingMarker)
    → normalize_state (state_value ms) ≡ (
        if leb (length ms) max_pending_markers
        then normalize_markers (map marker_value ms)
        else none)
unfolding normalize_state state_value has_exactly_keys property text_eq
normalize_state_opens ms = rw (items-from_items, length-map) refl

-- What the store takes of a queue is the queue.
pub normalize_state_sound :
    (ms ms' : List SyncPendingMarker) → normalize_state (state_value ms) ≡ some ms' → ms' ≡ ms
normalize_state_sound ms ms' h = elim (Bool-cases (leb (length ms) max_pending_markers)) [
  | inl few ↦
      let opened : AreMarkers (normalize_markers (map marker_value ms)) ms' =
        rw (normalize_state_opens ms, few) at h in
      normalize_markers_sound ms ms' opened
  | inr many ↦
      let clash : AreMarkers none ms' = rw (normalize_state_opens ms, many) at h in
      absurd (ground arith)
]

normalize_markers-approved :
    (ms : List SyncPendingMarker)
    → any (λ m. m.approved) ms ≡ true
    → normalize_markers (map marker_value ms) ≡ none
unfolding normalize_markers
normalize_markers-approved [] h = absurd (ground arith)
normalize_markers-approved (m ∷ ms) h = elim (Bool-cases m.approved) [
  | inl approved ↦ rw (normalize_marker-approved m approved) refl
  | inr plain ↦
      let later : any (λ m. m.approved) ms ≡ true = ground arith in
      rw (normalize_markers-approved ms later) (consed_none (normalize_marker (marker_value m)))
]
  where
    consed_none : (x : Option SyncPendingMarker) → consed x none ≡ none
    consed_none none = refl
    consed_none (some m) = refl

-- A queue with an approved marker is refused.
pub normalize_state-approved :
    (ms : List SyncPendingMarker)
    → any (λ m. m.approved) ms ≡ true
    → normalize_state (state_value ms) ≡ none
normalize_state-approved ms h =
    rw (normalize_state_opens ms) (ground (arith, normalize_markers-approved ms h))

any-approve :
    (through : ℕ) (ms : List SyncPendingMarker)
    → 0 < count (newly_approved through) ms
    → any (λ m. m.approved) (map (approve through) ms) ≡ true
any-approve through [] h = absurd (omega arith)
any-approve through (m ∷ ms) h = ground (arith, any-approve through ms)

module _ {T : Type 0} (storage : Storage T) where
  loaded_value :
      (ms : List SyncPendingMarker)
      → loaded storage (some (state_value ms))
        ≡ normal_value storage (normalize_state (state_value ms))
  unfolding state_value
  loaded_value ms = refl

  pub save-load :
      (t : T) (pending : List SyncPendingMarker)
      → (save storage t pending).1 ≡ true
      → load storage (save storage t pending).0 ≡ some (state_value pending)
  unfolding save load
  save-load t pending h = elim (Option-cases (normalize_state (state_value pending))) [
    | inl refused ↦ let clash : false ≡ true = rw refused at h in absurd (ground arith)
    | inr (ms, e) ↦
        let same : ms ≡ pending = normalize_state_sound pending ms e in
        let taken : normalize_state (state_value pending) ≡ some pending = e ∙ ap some same in
        let written : (Storage.write_sync storage t (state_value pending)).1 ≡ true =
          rw taken at h in
        let back = Storage.read-write storage t (state_value pending) written in
        rw (taken, back) (loaded_value pending ∙ ap (normal_value storage) taken)
  ]

  -- The store as the coordinator's interface sees it.
  abbrev pub persistent_store : SyncStore T
  persistent_store = record { save = save storage; load = load storage; load-save = save-load }

  -- With the persistent store no approval can be given: one that would approve at least one marker
  -- throws `sync_failed` and leaves the queue as it was.
  pub persistent_approval_fails :
      (c : Coordinator T) (through : ℕ)
      → through ≤ greatest c.pending
      → 0 < count (newly_approved through) c.pending
      → let after = approve_through persistent_store c through in
        (after.1 ≡ err sync_failed) × (after.0.pending ≡ c.pending)
  unfolding approve_through install save
  persistent_approval_fails c through h some_ =
      let within : ltb (greatest c.pending) through ≡ false = ground arith in
      let any_ : ltb 0 (count (newly_approved through) c.pending) ≡ true = ground arith in
      let refused =
        normalize_state-approved (map (approve through) c.pending)
          (any-approve through c.pending some_) in
      rw (within, any_, refused) (refl, refl)
