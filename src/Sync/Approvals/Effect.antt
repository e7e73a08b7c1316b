-- ===== src/Sync/Approvals/Effect.antt =====
-- core/notesnook-sync-coordinator.ts: what an approval changes, and what still blocks after it.
use nook_bridge.Common.{
  ℕ, suc, ◌+◌, ◌≡◌, refl, sym, Bool, false, ◌&&◌, List, keep, [], ◌∷◌, arith, ltb, count,
  Bool-cases, inl, inr, ◌⊎◌, map, length-map,
}
use nook_bridge.Common.Js.{JsValue}
use nook_bridge.Sync.Types.{
  blocks, SyncPendingMarker, WriteError, ok, err, invalid_input, sync_failed,
}
use nook_bridge.Sync.Store.{SyncStore, greatest}
use nook_bridge.Sync.Queue.{Coordinator, install, attempt}
use nook_bridge.Sync.Queue.Bounds.{Ascending, Fits, install-Fits}
use nook_bridge.Sync.Approvals.{
  newly_approved, approve, approve_through, approve_pending, parse_approval, SyncApproveResult,
}

-- A marker that an approval through a sequence leaves blocking.
abbrev pub blocks_above : ℕ → SyncPendingMarker → Bool
blocks_above through m = blocks m && ltb through m.sequence

count-map-approve :
    (through : ℕ) (ms : List SyncPendingMarker)
    → (count blocks (map (approve through) ms) ≡ count (blocks_above through) ms)
      × (count (newly_approved through) ms + count (blocks_above through) ms ≡ count blocks ms)
count-map-approve through [] = ground arith
count-map-approve through (m ∷ ms) = ground (arith, count-map-approve through ms)

sequence-approve : (through : ℕ) (m : SyncPendingMarker) → (approve through m).sequence ≡ m.sequence
sequence-approve through m = ground arith

-- A marker but for its approval.
abbrev pub unapproved : SyncPendingMarker → SyncPendingMarker
unapproved m = record m { approved = false }

unapproved-approve :
    (through : ℕ) (m : SyncPendingMarker) → unapproved (approve through m) ≡ unapproved m
unapproved-approve through m = elim (Bool-cases (newly_approved through m)) [
  | inl new ↦ rw new refl
  | inr old ↦ rw old refl
]

map-unapproved :
    (through : ℕ) (ms : List SyncPendingMarker)
    → map unapproved (map (approve through) ms) ≡ map unapproved ms
map-unapproved through [] = refl
map-unapproved through (m ∷ ms) = rw (unapproved-approve through m, map-unapproved through ms) refl

-- The markers that block after an approval are those that it leaves blocking, unchanged.
keep-map-approve :
    (through : ℕ) (ms : List SyncPendingMarker)
    → keep blocks (map (approve through) ms) ≡ keep (blocks_above through) ms
keep-map-approve through [] = refl
keep-map-approve through (m ∷ ms) = ground (arith, keep-map-approve through ms)

Ascending-map :
    (through low : ℕ) (ms : List SyncPendingMarker) (next : ℕ)
    → Ascending low ms next
    → Ascending low (map (approve through) ms) next
Ascending-map through low [] next a = a
Ascending-map through low (m ∷ ms) next (le, a) =
    rw (sequence-approve through m) (le, Ascending-map through (suc m.sequence) ms next a)

map-approve_of_none :
    (through : ℕ) (ms : List SyncPendingMarker)
    → count (newly_approved through) ms ≡ 0
    → map (approve through) ms ≡ ms
map-approve_of_none through [] h = refl
map-approve_of_none through (m ∷ ms) h = ground (arith, map-approve_of_none through ms)

module _ {S : Type 0} (store : SyncStore S) where
  approve_through-Fits :
      (c : Coordinator S) (through : ℕ) → Fits c → Fits (approve_through store c through).0
  unfolding approve_through
  approve_through-Fits c through f =
      let approved = count (newly_approved through) c.pending in
      let result : SyncApproveResult = record { approved = approved; through_sequence = through } in
      elim (Bool-cases (ltb (greatest c.pending) through)) [
        | inl above ↦ rw above f
        | inr fine ↦ elim (Bool-cases (ltb 0 (count (newly_approved through) c.pending))) [
          | inr nothing ↦ rw (fine, nothing) f
          | inl something ↦
              rw (fine, something)
                (install-Fits store c (map (approve through) c.pending) c.next_sequence result f
                  (record {
                    few = omega (arith, length-map (approve through) c.pending, f.few);
                    ascending = Ascending-map through 1 c.pending c.next_sequence f.ascending;
                  }))
        ]
      ]

  pub approve_pending-Fits :
      (c : Coordinator S) (v : JsValue) → Fits c → Fits (approve_pending store c v).0
  unfolding approve_pending approve_through
  approve_pending-Fits c v f =
      elim (parse_approval v) as (λ r. Fits (attempt store c r (approve_through store c)).0) [
        | err e ↦ f
        | ok through ↦ approve_through-Fits c through f
      ]

  approve_through_saves :
      (c : Coordinator S) (through : ℕ)
      → (((approve_through store c through).0.pending ≡ c.pending)
          × ((e : WriteError) × ((approve_through store c through).1 ≡ err e)))
        ⊎ (((approve_through store c through).0.pending ≡ map (approve through) c.pending)
            × ((approve_through store c through).1
                ≡ ok (record {
                  approved = count (newly_approved through) c.pending;
                  through_sequence = through;
                })))
  unfolding approve_through install
  approve_through_saves c through = elim (Bool-cases (ltb (greatest c.pending) through)) [
    | inl above ↦ inl (rw above (refl, (invalid_input, refl)))
    | inr fine ↦ elim (Bool-cases (ltb 0 (count (newly_approved through) c.pending))) [
      | inr nothing ↦
          inr
            (rw (fine, nothing) (sym (map-approve_of_none through c.pending (ground arith)), refl))
      | inl something ↦
          elim (Bool-cases
            (SyncStore.save store c.store_state (map (approve through) c.pending)).1) [
              | inl saved ↦ inr (rw (fine, something, saved) (refl, refl))
              | inr lost ↦ inl (rw (fine, something, lost) (refl, (sync_failed, refl)))
            ]
    ]
  ]

  -- An approval either throws and leaves the queue, or: every marker stays in its place with all but
  -- its approval, the markers that block afterwards are, unchanged and in order, the blocking ones
  -- above the given sequence, and it reports how many fewer block than before.
  pub approve_through_exact :
      (c : Coordinator S) (through : ℕ)
      → let (after, r) = approve_through store c through in
        ((after.pending ≡ c.pending) × ((e : WriteError) × (r ≡ err e)))
        ⊎ ((map unapproved after.pending ≡ map unapproved c.pending)
            × (keep blocks after.pending ≡ keep (blocks_above through) c.pending)
            × ((n : ℕ) × (r ≡ ok (record { approved = n; through_sequence = through }))
                × (n + count blocks after.pending ≡ count blocks c.pending)))
  approve_through_exact c through = elim (approve_through_saves c through) [
    | inl kept ↦ inl kept
    | inr (queue, r) ↦
        let (left, split) = count-map-approve through c.pending in
        inr (
          rw queue (map-unapproved through c.pending),
          rw queue (keep-map-approve through c.pending),
          (count (newly_approved through) c.pending, r, rw queue (omega (arith, left, split))),
        )
  ]
