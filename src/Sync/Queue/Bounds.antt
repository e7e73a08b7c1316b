-- ===== src/Sync/Queue/Bounds.antt =====
-- core/notesnook-sync-coordinator.ts: the bound of the queue and the order of its sequences.
use nook_bridge.Common.{
  ℕ, suc, ◌≤◌, ◌<◌, ◌≡◌, refl, Bool, not, ◌&&◌, Option, some, List, [], ◌∷◌, ◌++◌, arith, leb, ltb,
  ◌==◌, length, length-append, length-keep-le, keep, Bool-cases, Option-cases, inl, inr, Text,
}
use nook_bridge.Common.Js.{JsValue}
use nook_bridge.Sync.Types.{
  SyncPendingMarker, SyncOperation, SyncOrigin, create, Result, ok, err, max_pending_markers,
  valid_note_id, is_reserved_note_id,
}
use nook_bridge.Sync.Store.{SyncStore}
use nook_bridge.Sync.Queue.{
  Coordinator, Request, install, attempt, commit_request, record_local_commit, enqueue,
  record_intent, record_create_intent, after_commit, same_target, resolve_create_intent,
  resolve_with, split_placeholder, is_placeholder, put_before, release_intent, matches_token,
  new_marker, sticky_origin, parse_commit, parse_intent, parse_create_intent, placeholder_id,
}

-- The sequences rise from `low` on and stay below `next`.
abbrev pub Ascending : ℕ → List SyncPendingMarker → ℕ → Type 0
Ascending low [] next = low ≤ next
Ascending low (m ∷ ms) next = (low ≤ m.sequence) × Ascending (suc m.sequence) ms next

-- At most 64 markers, with rising sequences from 1 on, all below the next one.
pub record IsQueue (pending : List SyncPendingMarker) (next : ℕ) : Type 0 where
  pub few : length pending ≤ max_pending_markers
  pub ascending : Ascending 1 pending next

pub Ascending-weaken :
    (low low' : ℕ) (ms : List SyncPendingMarker) (next : ℕ)
    → low ≤ low'
    → Ascending low' ms next
    → Ascending low ms next
Ascending-weaken low low' [] next h a = omega arith
Ascending-weaken low low' (m ∷ ms) next h (le, a) = (omega arith, a)

pub Ascending-below :
    (low : ℕ) (ms : List SyncPendingMarker) (next : ℕ) → Ascending low ms next → low ≤ next
Ascending-below low [] next h = h
Ascending-below low (m ∷ ms) next (le, a) =
    omega (arith, Ascending-below (suc m.sequence) ms next a)

pub Ascending-append :
    (low : ℕ) (ms : List SyncPendingMarker) (m : SyncPendingMarker)
    → Ascending low ms m.sequence
    → Ascending low (ms ++ m ∷ []) (suc m.sequence)
Ascending-append low [] m a = (a, omega arith)
Ascending-append low (x ∷ ms) m (le, a) = (le, Ascending-append (suc x.sequence) ms m a)

pub Ascending-keep :
    (p : SyncPendingMarker → Bool) (low : ℕ) (ms : List SyncPendingMarker) (next : ℕ)
    → Ascending low ms next
    → Ascending low (keep p ms) next
Ascending-keep p low [] next a = a
Ascending-keep p low (m ∷ ms) next (le, a) = elim (Bool-cases (p m)) [
  | inl e ↦ rw e (le, Ascending-keep p (suc m.sequence) ms next a)
  | inr e ↦ rw e (
      Ascending-weaken low (suc m.sequence) (keep p ms) next (omega arith)
        (Ascending-keep p (suc m.sequence) ms next a))
]

pub IsQueue-keep :
    (p : SyncPendingMarker → Bool) (ms : List SyncPendingMarker) (next : ℕ)
    → IsQueue ms next
    → IsQueue (keep p ms) next
IsQueue-keep p ms next q = record {
  few = omega (arith, length-keep-le p ms, q.few);
  ascending = Ascending-keep p 1 ms next q.ascending;
}

abbrev pub Fits : {S : Type 0} → Coordinator S → Type 0
Fits c = IsQueue c.pending c.next_sequence

IsQueue-append :
    (ms : List SyncPendingMarker) (m : SyncPendingMarker)
    → length ms < max_pending_markers
    → Ascending 1 ms m.sequence
    → IsQueue (ms ++ m ∷ []) (suc m.sequence)
IsQueue-append ms m h a = record {
  few = omega (arith, length-append ms (m ∷ []));
  ascending = Ascending-append 1 ms m a;
}

-- An equation between answers of `split_placeholder`.
abbrev Same :
    Option (SyncPendingMarker × List SyncPendingMarker)
    → Option (SyncPendingMarker × List SyncPendingMarker)
    → Type 0
Same a b = a ≡ b

split_placeholder-Ascending :
    (token : SyncPendingMarker) (low : ℕ) (ms : List SyncPendingMarker) (next : ℕ)
    (p : SyncPendingMarker) (others : List SyncPendingMarker)
    → split_placeholder token ms ≡ some (p, others)
    → Ascending low ms next
    → Ascending low others next × (suc (length others) ≡ length ms)
unfolding split_placeholder
split_placeholder-Ascending token low [] next p others e a = cc
split_placeholder-Ascending token low (m ∷ ms) next p others e (le, a) =
    elim (Bool-cases (is_placeholder token m)) [
      | inl here ↦
          let found : Same (some (m, ms)) (some (p, others)) = rw here at e in
          let same : ms ≡ others = cc in
          rw (← same) (Ascending-weaken low (suc m.sequence) ms next (omega arith) a, refl)
      | inr there ↦
          let later : put_before m (split_placeholder token ms) ≡ some (p, others) =
            rw there at e in
          elim (Option-cases (split_placeholder token ms)) [
            | inl absent ↦ absurd (ground arith)
            | inr ((q, rest), found) ↦
                let whole : Same (some (q, m ∷ rest)) (some (p, others)) = rw found at later in
                let same : m ∷ rest ≡ others = cc in
                let (up, count_) =
                  split_placeholder-Ascending token (suc m.sequence) ms next q rest found a in
                rw (← same) ((le, up), omega (arith, count_))
          ]
    ]

module _ {S : Type 0} (store : SyncStore S) where
  pub install-Fits {ℓ} :
      {A : Type ℓ} (c : Coordinator S) (pending : List SyncPendingMarker) (next : ℕ) (a : A)
      → Fits c
      → IsQueue pending next
      → Fits (install store c pending next a).0
  unfolding install
  install-Fits c pending next a f q =
      elim (Bool-cases (SyncStore.save store c.store_state pending).1) [
        | inl e ↦ rw e q
        | inr e ↦ rw e f
      ]

  commit_request-Fits :
      (c : Coordinator S) (r : Request) → Fits c → Fits (commit_request store c r).0
  unfolding commit_request
  commit_request-Fits c r f =
      elim (Bool-cases (ltb max_pending_markers (length (after_commit c r)))) [
        | inl full ↦ rw full f
        | inr room ↦ rw room (
            install-Fits c _ _ r f (record {
              few = ground arith;
              ascending =
                  Ascending-append 1 _ (new_marker r.operation r.note_id c.next_sequence _)
                    (Ascending-keep _ 1 c.pending c.next_sequence f.ascending);
            }))
      ]

  enqueue-Fits :
      (c : Coordinator S) (operation : SyncOperation) (id : Text) (origin : SyncOrigin)
      → Fits c
      → Fits (enqueue store c operation id origin).0
  unfolding enqueue
  enqueue-Fits c operation id origin f =
      elim (Bool-cases (leb max_pending_markers (length c.pending))) [
        | inl full ↦ rw full f
        | inr room ↦
            let marker = new_marker operation id c.next_sequence origin in
            rw room (
              install-Fits c _ _ marker f
                (IsQueue-append c.pending marker (ground arith) f.ascending))
      ]

  attempt-Fits {ℓ κ} :
      {A : Type ℓ} {B : Type κ} (c : Coordinator S) (r : Result A)
      (k : A → Coordinator S × Result B)
      → Fits c
      → ((a : A) → Fits (k a).0)
      → Fits (attempt store c r k).0
  attempt-Fits c (ok a) k f h = h a
  attempt-Fits c (err e) k f h = f

  resolve_with-Fits :
      (c : Coordinator S) (token : SyncPendingMarker) (id : Text)
      → Fits c
      → Fits (resolve_with store c id (split_placeholder token c.pending)).0
  resolve_with-Fits c token id f = elim (Option-cases (split_placeholder token c.pending)) [
    | inl absent ↦ rw absent f
    | inr ((p, others), found) ↦
        let (up, shorter) =
          split_placeholder-Ascending token 1 c.pending c.next_sequence p others found
            f.ascending in
        let kept = keep (λ m. not (same_target create id m)) others in
        let marker = new_marker create id c.next_sequence (sticky_origin c.pending id p.origin) in
        rw found (
          install-Fits c (kept ++ marker ∷ []) (suc c.next_sequence) tt f (
            IsQueue-append kept marker
              (omega (arith, length-keep-le (λ m. not (same_target create id m)) others))
              (Ascending-keep _ 1 others c.next_sequence up)))
  ]

  -- Whatever is given to them, and whether or not the store saves, the calls that record, resolve
  -- and release markers keep at most 64 markers, with rising sequences below the next one.
  pub calls-Fits :
      (c : Coordinator S) (v : JsValue) (token : SyncPendingMarker) (id : Text)
      → Fits c
      → Fits (record_local_commit store c v).0
        × Fits (record_intent store c v).0
        × Fits (record_create_intent store c v).0
        × Fits (resolve_create_intent store c token id).0
        × Fits (release_intent store c token).0
  unfolding record_local_commit record_intent record_create_intent resolve_create_intent
      release_intent
  calls-Fits c v token id f = (
    attempt-Fits c (parse_commit v) _ f (λ r. commit_request-Fits c r f),
    attempt-Fits c (parse_intent v) _ f (λ r. enqueue-Fits c r.operation r.note_id _ f),
    attempt-Fits c (parse_create_intent v) _ f
        (λ o. enqueue-Fits c create (placeholder_id c.next_sequence) o f),
    elim (Bool-cases (valid_note_id id && not (is_reserved_note_id id))) [
      | inl fine ↦ rw fine (resolve_with-Fits c token id f)
      | inr bad ↦ rw bad f
    ],
    elim (Bool-cases
        (length (keep (λ m. not (matches_token token m)) c.pending) == length c.pending)) [
          | inl same ↦ rw same f
          | inr other ↦ rw other (
              install-Fits c _ c.next_sequence tt f
                (IsQueue-keep (λ m. not (matches_token token m)) c.pending c.next_sequence f))
        ],
  )
