-- ===== src/Sync/Queue/Intents.antt =====
-- core/notesnook-sync-coordinator.ts: the life of a write-ahead marker: recorded before the write,
-- released when the write fails, and resolved when a creation is given its note's id.
use nook_bridge.Common.{
  ℕ, suc, ◌≡◌, refl, sym, ap, ◌∙◌, true, false, not, ◌&&◌, some, List, [], ◌∷◌, ◌++◌, arith, leb,
  ◌==◌, length, length-append, keep, Bool-cases, inl, inr, Text, text_eq_refl, starts_with-append,
  decimal,
}
use nook_bridge.Common.Js.{JsValue}
use nook_bridge.Sync.Types.{
  SyncPendingMarker, SyncOperation, create, SyncOrigin, Result, ok, err, max_pending_markers,
  sync_required, valid_note_id, is_reserved_note_id, same_operation_refl, pending_create_prefix,
}
use nook_bridge.Sync.Store.{SyncStore}
use nook_bridge.Sync.Queue.{
  Coordinator, install, attempt, enqueue, record_intent, record_create_intent,
  resolve_create_intent, split_placeholder, is_placeholder, release_intent, matches_token,
  same_target, new_marker, sticky_origin, parse_intent, parse_create_intent, placeholder_id,
}
use nook_bridge.Sync.Queue.Bounds.{Ascending, Ascending-below, Fits}

-- A store whose saves all return.
abbrev pub Saves : {S : Type 0} → SyncStore S → Type 0
Saves {S} store = (s : S) (ms : List SyncPendingMarker) → (SyncStore.save store s ms).1 ≡ true

matches_itself : (m : SyncPendingMarker) → matches_token m m ≡ true
matches_itself m = rw (same_operation_refl m.operation, text_eq_refl m.note_id) (ground arith)

-- A token with the next sequence names none of the queue, and of the queue with it, only itself.
keep-other :
    (low : ℕ) (ms : List SyncPendingMarker) (m : SyncPendingMarker)
    → Ascending low ms m.sequence
    → keep (λ x. not (matches_token m x)) (ms ++ m ∷ []) ≡ ms
keep-other low [] m a = rw (matches_itself m) refl
keep-other low (x ∷ ms) m (le, a) =
    let below = Ascending-below (suc x.sequence) ms m.sequence a in
    let apart : x.sequence == m.sequence ≡ false = ground arith in
    rw apart (ap (λ rest. x ∷ rest) (keep-other (suc x.sequence) ms m a))

split-last :
    (low : ℕ) (ms : List SyncPendingMarker) (m : SyncPendingMarker)
    → Ascending low ms m.sequence
    → is_placeholder m m ≡ true
    → split_placeholder m (ms ++ m ∷ []) ≡ some (m, ms)
unfolding split_placeholder
split-last low [] m a h = rw h refl
split-last low (x ∷ ms) m (le, a) h =
    let below = Ascending-below (suc x.sequence) ms m.sequence a in
    let apart : x.sequence == m.sequence ≡ false = ground arith in
    rw (apart, split-last (suc x.sequence) ms m a h) refl

placeholder_itself :
    (n : ℕ) (origin : SyncOrigin)
    → let m = new_marker create (placeholder_id n) n origin in is_placeholder m m ≡ true
unfolding is_reserved_note_id
placeholder_itself n origin =
    rw
      (
        same_operation_refl create,
        text_eq_refl (placeholder_id n),
        starts_with-append pending_create_prefix (decimal n),
      )
      (ground arith)

abbrev IsToken : Result SyncPendingMarker → SyncPendingMarker → Type 0
IsToken r token = r ≡ ok token

module _ {S : Type 0} (store : SyncStore S) (saves : Saves store) where
  install_saved {ℓ} :
      {A : Type ℓ} (c : Coordinator S) (pending : List SyncPendingMarker) (next : ℕ) (a : A)
      → ((install store c pending next a).0.pending ≡ pending)
        × ((install store c pending next a).0.next_sequence ≡ next)
        × ((install store c pending next a).1 ≡ ok a)
  unfolding install
  install_saved c pending next a = rw (saves c.store_state pending) (refl, refl, refl)

  -- A write-ahead marker that was recorded is the queue's new last one.
  abbrev Recorded : Coordinator S → SyncPendingMarker → Coordinator S → Type 0
  Recorded c token c' =
      (c'.pending ≡ c.pending ++ token ∷ [])
      × (token.sequence ≡ c.next_sequence)
      × (c'.next_sequence ≡ suc c.next_sequence)

  enqueue-Recorded :
      (c : Coordinator S) (operation : SyncOperation) (id : Text) (origin : SyncOrigin)
      (token : SyncPendingMarker)
      → (enqueue store c operation id origin).1 ≡ ok token
      → Recorded c token (enqueue store c operation id origin).0
        × (token ≡ new_marker operation id c.next_sequence origin)
  unfolding enqueue
  enqueue-Recorded c operation id origin token h =
      elim (Bool-cases (leb max_pending_markers (length c.pending))) [
        | inl full ↦
            let clash : IsToken (err sync_required) token = rw full at h in absurd (ground arith)
        | inr room ↦
            let marker = new_marker operation id c.next_sequence origin in
            let (queue, next, result) =
              install_saved c (c.pending ++ marker ∷ []) (suc c.next_sequence) marker in
            let given : IsToken
                (install store c (c.pending ++ marker ∷ []) (suc c.next_sequence) marker).1 token =
              rw room at h in
            let both : IsToken (ok marker) token = sym result ∙ given in
            let same : marker ≡ token = cc in
            rw room (
              (queue ∙ ap (λ m. c.pending ++ m ∷ []) same, ap (λ m. m.sequence) (sym same), next),
              sym same,
            )
      ]

  resolve-Recorded :
      (c c' : Coordinator S) (token : SyncPendingMarker) (id : Text)
      → Fits c
      → Recorded c token c'
      → is_placeholder token token ≡ true
      → (valid_note_id id && not (is_reserved_note_id id)) ≡ true
      → ((resolve_create_intent store c' token id).0.pending
          ≡ keep (λ m. not (same_target create id m)) c.pending
            ++ new_marker create id
                (suc c.next_sequence)
                (sticky_origin (c.pending ++ token ∷ []) id token.origin)
              ∷ [])
        × ((resolve_create_intent store c' token id).1 ≡ ok tt)
  unfolding resolve_create_intent
  resolve-Recorded c c' token id f (queue, number_, next) placeholder fine =
      let below : Ascending 1 c.pending token.sequence = rw number_ f.ascending in
      let found : split_placeholder token c'.pending ≡ some (token, c.pending) =
        rw queue (split-last 1 c.pending token below placeholder) in
      let marker =
        new_marker create id c'.next_sequence (sticky_origin c'.pending id token.origin) in
      let kept = keep (λ m. not (same_target create id m)) c.pending in
      let (queue', next', result) =
        install_saved c' (kept ++ marker ∷ []) (suc c'.next_sequence) tt in
      let renamed : marker
          ≡ new_marker create id (suc c.next_sequence)
              (sticky_origin (c.pending ++ token ∷ []) id token.origin) =
        rw (queue, next) refl in
      rw (fine, found) (queue' ∙ ap (λ m. kept ++ m ∷ []) renamed, result)

  release-Recorded :
      (c c' : Coordinator S) (token : SyncPendingMarker)
      → Fits c
      → Recorded c token c'
      → ((release_intent store c' token).0.pending ≡ c.pending)
        × ((release_intent store c' token).1 ≡ ok tt)
  unfolding release_intent
  release-Recorded c c' token f (queue, number_, next) =
      let below : Ascending 1 c.pending token.sequence = rw number_ f.ascending in
      let left : keep (λ m. not (matches_token token m)) c'.pending ≡ c.pending =
        rw queue (keep-other 1 c.pending token below) in
      let long : length c'.pending ≡ suc (length c.pending) =
        rw queue (omega (arith, length-append c.pending (token ∷ []))) in
      let shorter : (length (keep (λ m. not (matches_token token m)) c'.pending)
            == length c'.pending)
          ≡ false =
        rw (left, long) (ground arith) in
      let (queue', next', result) =
        install_saved c' (keep (λ m. not (matches_token token m)) c'.pending) c'.next_sequence tt in
      rw shorter (queue' ∙ left, result)

  -- With a store whose saves return, releasing the token of a write-ahead marker that was just recorded
  -- returns, and gives back the queue from before the recording.
  pub release_intent-record_intent :
      (c : Coordinator S) (v : JsValue) (token : SyncPendingMarker)
      → Fits c
      → (record_intent store c v).1 ≡ ok token
      → let after = release_intent store (record_intent store c v).0 token in
        (after.0.pending ≡ c.pending) × (after.1 ≡ ok tt)
  unfolding record_intent
  release_intent-record_intent c v token f h =
      elim (parse_intent v)
          as (λ r.
            let x = attempt store c r (λ q.
              enqueue store c q.operation q.note_id (sticky_origin c.pending q.note_id q.origin)) in
            IsToken x.1 token
            → ((release_intent store x.0 token).0.pending ≡ c.pending)
              × ((release_intent store x.0 token).1 ≡ ok tt)) [
                | err e ↦ λ bad. absurd (ground arith)
                | ok r ↦ λ fine.
                    let (recorded, _) =
                      enqueue-Recorded c r.operation r.note_id
                        (sticky_origin c.pending r.note_id r.origin) token fine in
                    release-Recorded c _ token f recorded
              ]
        h

  -- With a store whose saves return, resolving the token of a creation that was just recorded puts in
  -- the placeholder's place one marker for the note's valid id, at the end, with the next sequence,
  -- the origin of the creation or a higher one that the note already has, and without an approval.
  pub resolve-record_create_intent :
      (c : Coordinator S) (v : JsValue) (token : SyncPendingMarker) (id : Text)
      → Fits c
      → (record_create_intent store c v).1 ≡ ok token
      → (valid_note_id id && not (is_reserved_note_id id)) ≡ true
      → let after = resolve_create_intent store (record_create_intent store c v).0 token id in
        (after.0.pending
          ≡ keep (λ m. not (same_target create id m)) c.pending
            ++ new_marker create id
                (suc c.next_sequence)
                (sticky_origin (c.pending ++ token ∷ []) id token.origin)
              ∷ [])
        × (after.1 ≡ ok tt)
  unfolding record_create_intent
  resolve-record_create_intent c v token id f h fine =
      elim (parse_create_intent v)
          as (λ r.
            let x = attempt store c r (enqueue store c create (placeholder_id c.next_sequence)) in
            IsToken x.1 token
            → ((resolve_create_intent store x.0 token id).0.pending
                ≡ keep (λ m. not (same_target create id m)) c.pending
                  ++ new_marker create id (suc c.next_sequence)
                      (sticky_origin (c.pending ++ token ∷ []) id token.origin)
                    ∷ [])
              × ((resolve_create_intent store x.0 token id).1 ≡ ok tt)) [
                | err e ↦ λ bad. absurd (ground arith)
                | ok origin ↦ λ given.
                    let (recorded, named) =
                      enqueue-Recorded c create (placeholder_id c.next_sequence) origin token
                        given in
                    resolve-Recorded c _ token id f recorded
                      (rw named (placeholder_itself c.next_sequence origin)) fine
              ]
        h
