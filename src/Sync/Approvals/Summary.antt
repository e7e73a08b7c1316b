-- ===== src/Sync/Approvals/Summary.antt =====
-- core/notesnook-sync-coordinator.ts: what `blockingSummary` counts.
use nook_bridge.Common.{
  ℕ, ◌+◌, ◌≡◌, refl, Option, none, some, List, [], ◌∷◌, arith, count, Bool, true, false, ◌&&◌, ◌==◌,
  any, is_some, ◌||◌, ◌⊎◌, ap, ◌∙◌, some_back, ◌≤◌, inl, inr,
}
use nook_bridge.Sync.Types.{
  SyncPendingMarker, SyncOperation, SyncOrigin, create, append, update, delete, mcp, operator,
  unknown, same_operation, blocks,
}
use nook_bridge.Sync.Approvals.{
  SyncBlockingSummary, no_blocking, tally, tally_all, blocking_summary,
}
use nook_bridge.Sync.Approvals.Effect.{blocks_above}

-- The sequence through which everything is to be approved; 0 without one.
abbrev reaches : Option ℕ → ℕ
reaches none = 0
reaches (some h) = h

-- A blocking marker of an operation, of an origin, and with a sequence.
abbrev pub blocks_as : SyncOperation → SyncPendingMarker → Bool
blocks_as operation m = blocks m && same_operation m.operation operation

abbrev same_origin : SyncOrigin → SyncOrigin → Bool
same_origin mcp mcp = true
same_origin operator operator = true
same_origin unknown unknown = true
same_origin _ _ = false

abbrev pub blocks_from : SyncOrigin → SyncPendingMarker → Bool
blocks_from origin m = blocks m && same_origin m.origin origin

abbrev pub blocks_at : ℕ → SyncPendingMarker → Bool
blocks_at sequence m = blocks m && m.sequence == sequence

-- A summary that counts markers on top of another, group by group.
abbrev pub Counts : SyncBlockingSummary → SyncBlockingSummary → List SyncPendingMarker → Type 0
Counts s t ms =
    (t.total ≡ s.total + count blocks ms)
    × (t.creates ≡ s.creates + count (blocks_as create) ms)
    × (t.appends ≡ s.appends + count (blocks_as append) ms)
    × (t.updates ≡ s.updates + count (blocks_as update) ms)
    × (t.deletes ≡ s.deletes + count (blocks_as delete) ms)
    × (t.by_operator ≡ s.by_operator + count (blocks_from operator) ms)
    × (t.by_unknown ≡ s.by_unknown + count (blocks_from unknown) ms)

tally-Counts : (s : SyncBlockingSummary) (m : SyncPendingMarker) → Counts s (tally s m) (m ∷ [])
unfolding same_operation
tally-Counts s m = ground arith

count-cons :
    (p : SyncPendingMarker → Bool) (m : SyncPendingMarker) (ms : List SyncPendingMarker)
    → count p (m ∷ ms) ≡ count p (m ∷ []) + count p ms
count-cons p m ms = ground arith

tally_all-Counts :
    (s : SyncBlockingSummary) (ms : List SyncPendingMarker) → Counts s (tally_all s ms) ms
unfolding tally_all
tally_all-Counts s [] = omega arith
tally_all-Counts s (m ∷ ms) =
    let (a, b, c, d, e, f, g) = tally-Counts s m in
    let (a', b', c', d', e', f', g') = tally_all-Counts (tally s m) ms in
    (
      omega (arith, count-cons blocks m ms),
      omega (arith, count-cons (blocks_as create) m ms),
      omega (arith, count-cons (blocks_as append) m ms),
      omega (arith, count-cons (blocks_as update) m ms),
      omega (arith, count-cons (blocks_as delete) m ms),
      omega (arith, count-cons (blocks_from operator) m ms),
      omega (arith, count-cons (blocks_from unknown) m ms),
    )

reaches-tally :
    (s : SyncBlockingSummary) (m : SyncPendingMarker)
    → let t = tally s m in
      (reaches s.highest_sequence ≤ reaches t.highest_sequence)
      × (count (blocks_above (reaches t.highest_sequence)) (m ∷ []) ≡ 0)
reaches-tally s m = ground arith

reaches-tally_all :
    (s : SyncBlockingSummary) (ms : List SyncPendingMarker)
    → reaches s.highest_sequence ≤ reaches (tally_all s ms).highest_sequence
unfolding tally_all
reaches-tally_all s [] = omega arith
reaches-tally_all s (m ∷ ms) =
    let (first, _) = reaches-tally s m in let rest = reaches-tally_all (tally s m) ms in omega arith

tally_all_clears :
    (s : SyncBlockingSummary) (ms : List SyncPendingMarker)
    → count (blocks_above (reaches (tally_all s ms).highest_sequence)) ms ≡ 0
unfolding tally_all
tally_all_clears s [] = refl
tally_all_clears s (m ∷ ms) =
    let (_, first) = reaches-tally s m in
    let higher_ = reaches-tally_all (tally s m) ms in
    ground (arith, tally_all_clears (tally s m) ms, first, higher_)

-- The highest sequence is the one before, or that of a blocking marker.
tally_attains :
    (s : SyncBlockingSummary) (m : SyncPendingMarker)
    → ((tally s m).highest_sequence ≡ s.highest_sequence)
      ⊎ (((tally s m).highest_sequence ≡ some m.sequence) × (blocks m ≡ true))
tally_attains s m = ground arith

tally_all_attains :
    (s : SyncBlockingSummary) (ms : List SyncPendingMarker)
    → ((tally_all s ms).highest_sequence ≡ s.highest_sequence)
      ⊎ ((h : ℕ) × ((tally_all s ms).highest_sequence ≡ some h) × (any (blocks_at h) ms ≡ true))
unfolding tally_all
tally_all_attains s [] = inl refl
tally_all_attains s (m ∷ ms) = elim (tally_all_attains (tally s m) ms) [
  | inr (h, e, later) ↦ inr (h, e, ground arith)
  | inl same ↦ elim (tally_attains s m) [
    | inl before ↦ inl (same ∙ before)
    | inr (here, blocked) ↦ inr (m.sequence, same ∙ here, ground arith)
  ]
]

tally_some :
    (s : SyncBlockingSummary) (m : SyncPendingMarker)
    → (is_some s.highest_sequence || blocks m) ≡ is_some (tally s m).highest_sequence
tally_some s m = ground arith

tally_all_some :
    (s : SyncBlockingSummary) (ms : List SyncPendingMarker)
    → (is_some s.highest_sequence || any blocks ms) ≡ is_some (tally_all s ms).highest_sequence
unfolding tally_all
tally_all_some s [] = ground arith
tally_all_some s (m ∷ ms) = ground (arith, tally_some s m, tally_all_some (tally s m) ms)

-- The highest sequence of the blocking markers, or none where nothing blocks.
abbrev pub IsHighest : Option ℕ → List SyncPendingMarker → Type 0
IsHighest none ms = any blocks ms ≡ false
IsHighest (some h) ms = (any (blocks_at h) ms ≡ true) × (count (blocks_above h) ms ≡ 0)

blocking-IsHighest :
    (o : Option ℕ) (ms : List SyncPendingMarker)
    → any blocks ms ≡ is_some o
    → count (blocks_above (reaches o)) ms ≡ 0
    → (o ≡ none) ⊎ ((h : ℕ) × (o ≡ some h) × (any (blocks_at h) ms ≡ true))
    → IsHighest o ms
blocking-IsHighest none ms seen clear found = seen
blocking-IsHighest (some h) ms seen clear (inl nothing) = cc
blocking-IsHighest (some h) ms seen clear (inr (h', e, at_)) =
    (ap (λ n. any (blocks_at n) ms) (some_back _ _ e) ∙ at_, clear)

-- The summary counts the blocking markers in all, by each operation, and by each origin that can
-- block; and it names the highest sequence that a blocking marker has, or none where nothing blocks.
pub blocking_summary_exact :
    (pending : List SyncPendingMarker)
    → Counts no_blocking (blocking_summary pending) pending
      × IsHighest (blocking_summary pending).highest_sequence pending
unfolding blocking_summary
blocking_summary_exact pending = (
  tally_all-Counts no_blocking pending,
  blocking-IsHighest (tally_all no_blocking pending).highest_sequence pending
      (tally_all_some no_blocking pending) (tally_all_clears no_blocking pending)
      (tally_all_attains no_blocking pending),
)
