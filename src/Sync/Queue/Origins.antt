-- ===== src/Sync/Queue/Origins.antt =====
-- core/notesnook-sync-coordinator.ts: the origin of a note's markers never falls.
use nook_bridge.Common.{
  ℕ, suc, ◌≤◌, ◌<◌, ◌≡◌, refl, ap, Bool, true, false, not, ◌&&◌, List, [], ◌∷◌, ◌++◌, arith, leb,
  ltb, if◌then◌else◌, length, keep, any, Bool-cases, inl, inr, Text, text_eq, text_eq_refl,
  text_eq_sound, max, ltb→lt,
}
use nook_bridge.Common.Js.{JsValue}
use nook_bridge.Sync.Types.{
  blocks, SyncPendingMarker, SyncOperation, create, SyncOrigin, mcp, unknown, operator, rank,
  Result, ok, err, max_pending_markers,
}
use nook_bridge.Sync.Store.{SyncStore}
use nook_bridge.Sync.Queue.{
  Coordinator, Request, install, attempt, commit_request, record_local_commit, enqueue,
  record_intent, after_commit, same_target, new_marker, sticky_origin, parse_commit, parse_intent,
  parse_create_intent, placeholder_id, record_create_intent,
}

-- The highest rank among the markers of a note; 0 if it has none.
unfoldable pub note_rank : List SyncPendingMarker → Text → ℕ
note_rank [] note_id = 0
note_rank (m ∷ ms) note_id =
    let rest = note_rank ms note_id in
    if text_eq m.note_id note_id then max (rank m.origin) rest else rest

-- The origin that a new marker takes has the highest rank of what is asked for and of the markers
-- queued for the note.
pub rank-sticky_origin :
    (ms : List SyncPendingMarker) (id : Text) (o : SyncOrigin)
    → rank (sticky_origin ms id o) ≡ max (rank o) (note_rank ms id)
unfolding sticky_origin note_rank
rank-sticky_origin [] id o = omega arith
rank-sticky_origin (m ∷ ms) id o = elim (Bool-cases (text_eq m.note_id id)) [
  | inl e ↦ elim (Bool-cases (ltb (rank o) (rank m.origin))) [
    | inl up ↦ rw (e, up) (omega (arith, rank-sticky_origin ms id m.origin, ltb→lt _ _ up))
    | inr low ↦
        rw (e, low)
          (let le : rank m.origin ≤ rank o = ground arith in
            omega (arith, rank-sticky_origin ms id o))
  ]
  | inr e ↦ rw e (rank-sticky_origin ms id o)
]

note_rank-append :
    (xs ys : List SyncPendingMarker) (id : Text)
    → note_rank (xs ++ ys) id ≡ max (note_rank xs id) (note_rank ys id)
unfolding note_rank
note_rank-append [] ys id = omega arith
note_rank-append (x ∷ xs) ys id = elim (Bool-cases (text_eq x.note_id id)) [
  | inl e ↦ rw e (omega (arith, note_rank-append xs ys id))
  | inr e ↦ rw e (note_rank-append xs ys id)
]

-- Markers of one note make way: the ranks of the other notes stay.
note_rank-keep_other :
    (operation : SyncOperation) (id other : Text) (ms : List SyncPendingMarker)
    → text_eq id other ≡ false
    → note_rank (keep (λ m. not (same_target operation id m)) ms) other ≡ note_rank ms other
unfolding note_rank
note_rank-keep_other operation id other [] ne = refl
note_rank-keep_other operation id other (m ∷ ms) ne =
    elim (Bool-cases (same_target operation id m)) [
      | inl dropped ↦
          let same_id : text_eq m.note_id id ≡ true = ground arith in
          let apart : text_eq m.note_id other ≡ false =
            rw (text_eq_sound m.note_id id same_id) ne in
          rw (dropped, apart) (note_rank-keep_other operation id other ms ne)
      | inr kept ↦ rw kept (
          ap (λ n. if text_eq m.note_id other then max (rank m.origin) n else n)
            (note_rank-keep_other operation id other ms ne))
    ]

note_rank_one :
    (m : SyncPendingMarker) (id : Text)
    → note_rank (m ∷ []) id ≡ (if text_eq m.note_id id then rank m.origin else 0)
unfolding note_rank
note_rank_one m id = ground arith

any-append {ℓ} :
    {A : Type ℓ} (p : A → Bool) (xs : List A) (x : A) → p x ≡ true → any p (xs ++ x ∷ []) ≡ true
any-append p [] x h = ground arith
any-append p (y ∷ xs) x h = ground (arith, any-append p xs x h)

blocking_head :
    (operation : SyncOperation) (id : Text) (n : ℕ) (o : SyncOrigin)
    → 0 < rank o
    → (blocks (new_marker operation id n o) && text_eq id id) ≡ true
blocking_head operation id n mcp h = absurd (omega arith)
blocking_head operation id n unknown h = text_eq_refl id
blocking_head operation id n operator h = text_eq_refl id

-- A commit leaves no note with a lower rank than it had.
after_commit-rank :
    {S : Type 0} (c : Coordinator S) (r : Request) (id : Text)
    → note_rank c.pending id ≤ note_rank (after_commit c r) id
after_commit-rank c r id =
    let kept = keep (λ m. not (same_target r.operation r.note_id m)) c.pending in
    let origin = sticky_origin c.pending r.note_id r.origin in
    let marker = new_marker r.operation r.note_id c.next_sequence origin in
    let both = note_rank-append kept (marker ∷ []) id in
    let last = note_rank_one marker id in
    elim (Bool-cases (text_eq r.note_id id)) [
      | inl e ↦
          let same : r.note_id ≡ id = text_eq_sound r.note_id id e in
          let raised : rank origin ≡ max (rank r.origin) (note_rank c.pending id) =
            rw (← same) (rank-sticky_origin c.pending r.note_id r.origin) in
          let taken : note_rank (marker ∷ []) id ≡ rank origin = rw e at last in
          omega (arith, both, taken, raised)
      | inr e ↦ omega (arith, both, note_rank-keep_other r.operation r.note_id id c.pending e)
    ]

append-rank :
    (ms : List SyncPendingMarker) (m : SyncPendingMarker) (id : Text)
    → note_rank ms id ≤ note_rank (ms ++ m ∷ []) id
append-rank ms m id = omega (arith, note_rank-append ms (m ∷ []) id)

module _ {S : Type 0} (store : SyncStore S) (id : Text) where
  install-rank {ℓ} :
      {A : Type ℓ} (c : Coordinator S) (pending : List SyncPendingMarker) (next : ℕ) (a : A)
      → note_rank c.pending id ≤ note_rank pending id
      → note_rank c.pending id ≤ note_rank (install store c pending next a).0.pending id
  unfolding install
  install-rank c pending next a h =
      elim (Bool-cases (SyncStore.save store c.store_state pending).1) [
        | inl e ↦ rw e h
        | inr e ↦ rw e (omega arith)
      ]

  commit_request-rank :
      (c : Coordinator S) (r : Request)
      → note_rank c.pending id ≤ note_rank (commit_request store c r).0.pending id
  unfolding commit_request
  commit_request-rank c r =
      elim (Bool-cases (ltb max_pending_markers (length (after_commit c r)))) [
        | inl full ↦ rw full (omega arith)
        | inr room ↦
            rw room
              (install-rank c (after_commit c r) (suc c.next_sequence) r (after_commit-rank c r id))
      ]

  enqueue-rank :
      (c : Coordinator S) (operation : SyncOperation) (note_id : Text) (origin : SyncOrigin)
      → note_rank c.pending id ≤ note_rank (enqueue store c operation note_id origin).0.pending id
  unfolding enqueue
  enqueue-rank c operation note_id origin =
      elim (Bool-cases (leb max_pending_markers (length c.pending))) [
        | inl full ↦ rw full (omega arith)
        | inr room ↦
            let marker = new_marker operation note_id c.next_sequence origin in
            rw room (
              install-rank c (c.pending ++ marker ∷ []) (suc c.next_sequence) marker
                (append-rank c.pending marker id))
      ]

  attempt-rank {ℓ κ} :
      {A : Type ℓ} {B : Type κ} (c : Coordinator S) (r : Result A)
      (k : A → Coordinator S × Result B)
      → ((a : A) → note_rank c.pending id ≤ note_rank (k a).0.pending id)
      → note_rank c.pending id ≤ note_rank (attempt store c r k).0.pending id
  attempt-rank c (ok a) k h = h a
  attempt-rank c (err e) k h = omega arith

  -- No commit and no write-ahead marker lowers the rank of any note, whatever origin it names: what
  -- an operator or an unknown writer queued for a note is not hidden behind a later one.
  pub records-rank :
      (c : Coordinator S) (v : JsValue)
      → (note_rank c.pending id ≤ note_rank (record_local_commit store c v).0.pending id)
        × (note_rank c.pending id ≤ note_rank (record_intent store c v).0.pending id)
        × (note_rank c.pending id ≤ note_rank (record_create_intent store c v).0.pending id)
  unfolding record_local_commit record_intent record_create_intent
  records-rank c v = (
    attempt-rank c (parse_commit v) (commit_request store c) (commit_request-rank c),
    attempt-rank c (parse_intent v) _
        (λ r. enqueue-rank c r.operation r.note_id (sticky_origin c.pending r.note_id r.origin)),
    attempt-rank c (parse_create_intent v) _
        (λ o. enqueue-rank c create (placeholder_id c.next_sequence) o),
  )

-- A commit that is recorded leaves a marker of the note that blocks an upload, unless both the
-- commit and every marker that the note had are of MCP's own origin; an earlier approval of a marker
-- that makes way does not carry over.
pub commit_blocks :
    {S : Type 0} (c : Coordinator S) (r : Request)
    → 0 < max (rank r.origin) (note_rank c.pending r.note_id)
    → any (λ m. blocks m && text_eq m.note_id r.note_id) (after_commit c r) ≡ true
commit_blocks c r h =
    any-append _ (keep (λ m. not (same_target r.operation r.note_id m)) c.pending) _ (
      blocking_head r.operation r.note_id c.next_sequence
        (sticky_origin c.pending r.note_id r.origin)
        (omega (arith, rank-sticky_origin c.pending r.note_id r.origin)))
