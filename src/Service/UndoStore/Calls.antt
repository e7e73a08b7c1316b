-- ===== src/Service/UndoStore/Calls.antt =====
-- service/notes-undo-store.ts: the calls on the store, as a refinement of the abstract steps.
use nook_bridge.Common.{
  ℕ, ◌+◌, ◌≡◌, refl, sym, ap, subst, ◌∙◌, Bool, true, false, ◌&&◌, ◌||◌, Option, none, some, List,
  Text, arith, Option-cases, inl, inr, leb, if◌then◌else◌,
}
use nook_bridge.Common.Js.{JsValue, safe_from, max_safe_integer}
use nook_bridge.Service.UndoStore.Types.{
  OperationState, prepared, aborted, undone, OperationKind, OperationRecord, Entry, Limits,
  may_become, same_state, is_expirable, Result, ok, err, closed, OperationStoreFs, Codec,
  Randomness, Store, entry_of,
}
use nook_bridge.Service.UndoStore.Records.{entry_of-handle, Distinct}
use nook_bridge.Service.UndoStore.{
  close_key, lookup, owned, owned_lookup, insert, insert_new, insert_parsed, parse_kind,
  text_or_none, get, list_owned, next_payload, moved, transition, transition_found, acknowledge,
  acknowledge_found, close, remove, run,
}
use nook_bridge.Service.UndoStore.Changes.{
  stay, Outcome, Moved, Fine, if_Fine, persist-Fine, remove-Fine, expire_then-Fine,
}

pub data StoreCall : Type 0 where
  inserting : Option ℕ → Option ℕ → Randomness → Text → JsValue → JsValue → JsValue → StoreCall
  getting : Option ℕ → Text → Option Text → StoreCall
  listing : Option ℕ → Option Text → StoreCall
  moving :
      Option ℕ
      → Randomness
      → Text
      → OperationState
      → OperationState
      → JsValue
      → Option Text
      → StoreCall
  acknowledging : Option ℕ → Text → StoreCall
  closing : StoreCall

lookup_found :
    (handle : Text) (records : List Entry) (r : OperationRecord)
    → lookup handle records ≡ ok r
    → (e : Entry) × (entry_of handle records ≡ some e) × (e.operation ≡ r)
unfolding lookup
lookup_found handle records r h = elim (Option-cases (entry_of handle records)) [
  | inl nothing ↦ absurd (ground arith)
  | inr (e, found) ↦ (e, found, ground arith)
]

at_handle :
    (handle : Text) (e : Entry) (records : List Entry)
    → entry_of handle records ≡ some e
    → entry_of e.operation.handle records ≡ some e
at_handle handle e records found =
    ap (λ t. entry_of t records) (entry_of-handle handle records e found) ∙ found

at_own_handle :
    (handle : Text) (e : Entry) (r : OperationRecord) (records : List Entry)
    → entry_of handle records ≡ some e
    → e.operation ≡ r
    → entry_of r.handle records ≡ some e
at_own_handle handle e r records found same =
    ap (λ o. entry_of o.handle records) (sym same) ∙ at_handle handle e records found

own_handle :
    (handle : Text) (e : Entry) (r : OperationRecord) (records : List Entry)
    → entry_of handle records ≡ some e
    → e.operation ≡ r
    → handle ≡ r.handle
own_handle handle e r records found same =
    sym (entry_of-handle handle records e found) ∙ ap (λ o. o.handle) same

ended_is_expirable :
    (state : OperationState)
    → (same_state state aborted || same_state state undone) ≡ true
    → is_expirable state ≡ true
unfolding same_state is_expirable
ended_is_expirable state h = ground arith

module _ {D Frame : Type 0} (fs : OperationStoreFs D Frame) (codec : Codec Frame)
    (limits : Limits) where
  unfoldable pub perform : StoreCall → Store D → Store D
  perform (inserting c c' random handle kind payload ttl) s =
      (insert fs codec limits c c' random handle kind payload ttl s).0
  perform (getting c handle owner) s = (get fs codec limits c handle owner s).0
  perform (listing c owner) s = (list_owned fs codec limits c owner s).0
  perform (moving c random handle expected next payload owner) s =
      (transition fs codec limits c random handle expected next payload owner s).0
  perform (acknowledging c handle) s = (acknowledge fs codec limits c handle s).0
  perform closing s = (close fs codec limits s).0

-- The states that a call asks to write under its handle are all assumed to be written.
abbrev pub MayWrite : (OperationState → Text → Type 0) → StoreCall → Type 0
MayWrite Writes (inserting c c' random handle kind payload ttl) = Writes prepared handle
MayWrite Writes (moving c random handle expected next payload owner) = Writes next handle
MayWrite Writes _ = Unit

module _ {D Frame : Type 0} (fs : OperationStoreFs D Frame) (codec : Codec Frame) (limits : Limits)
    (Writes : OperationState → Text → Type 0) where
  insert_new-Fine :
      (start : List Entry) (random : Randomness) (new : OperationRecord) (s : Store D)
      → new.state ≡ prepared
      → Writes prepared new.handle
      → Moved fs codec limits Writes start s
      → Fine fs codec limits Writes start (insert_new fs codec limits random new s)
  insert_new-Fine start random new s fresh entered h =
      elim (Option-cases (entry_of new.handle s.records)) [
        | inl nobody ↦ rw nobody (
            persist-Fine fs codec limits Writes start random new s h (inl (nobody, fresh, entered)))
        | inr (e, found) ↦ rw found (inr h.0)
      ]

  insert_parsed-Fine :
      (start : List Entry) (clock : Option ℕ) (random : Randomness) (handle : Text)
      (kind : Option OperationKind) (payload : Option Text) (ttl created : Option ℕ) (s : Store D)
      → Writes prepared handle
      → Moved fs codec limits Writes start s
      → Fine fs codec limits Writes start
          (insert_parsed fs codec limits clock random handle kind payload ttl created s)
  insert_parsed-Fine start clock random handle (some k) (some p) (some ttl) (some t) s entered h =
      if_Fine fs codec limits Writes start (leb (t + ttl) max_safe_integer) _ _
        (λ e.
          expire_then-Fine fs codec limits Writes start clock s _ h
            (λ s' h'. insert_new-Fine start random _ s' refl entered h'))
        (inr h.0)
  insert_parsed-Fine start clock random handle none p ttl t s entered h = inr h.0
  insert_parsed-Fine start clock random handle (some k) none ttl t s entered h = inr h.0
  insert_parsed-Fine start clock random handle (some k) (some p) none t s entered h = inr h.0
  insert_parsed-Fine start clock random handle (some k) (some p) (some ttl) none s entered h =
      inr h.0

  owned_ok :
      (owner : Option Text) (found : Result OperationRecord) (r : OperationRecord)
      → owned fs codec limits owner found ≡ ok r
      → found ≡ ok r
  owned_ok owner (err e) r h = absurd (ground arith)
  owned_ok owner (ok r') r h = ground arith

  moved-Fine :
      (start : List Entry) (random : Randomness) (r : OperationRecord) (next : OperationState)
      (payload : Option Text) (s : Store D)
      → Moved fs codec limits Writes start s
      → (e : Entry) → entry_of r.handle s.records ≡ some e
      → e.operation ≡ r
      → may_become r.state next ≡ true
      → Writes next r.handle
      → Fine fs codec limits Writes start (moved fs codec limits random r next payload s)
  moved-Fine start random r next none s h e found same may written = inr h.0
  moved-Fine start random r next (some payload) s h e found same may written =
      persist-Fine fs codec limits Writes start random
        (record r { state = next; payload = payload }) s h
        (inr (
          e,
          found,
          ap (λ o. may_become o.state next) same ∙ may,
          ap (λ o. o.kind) (sym same),
          ap (λ o. o.created_at) (sym same),
          ap (λ o. o.expires_at) (sym same),
          written,
        ))

  owned_found :
      (handle : Text) (owner : Option Text) (records : List Entry) (r : OperationRecord)
      → owned_lookup fs codec limits handle owner records ≡ ok r
      → (e : Entry) × (entry_of handle records ≡ some e) × (e.operation ≡ r)
  unfolding owned_lookup
  owned_found handle owner records r h =
      lookup_found handle records r (owned_ok owner (lookup handle records) r h)

  transition_found-Fine :
      (start : List Entry) (random : Randomness) (expected next : OperationState)
      (payload : JsValue) (handle : Text) (found : Result OperationRecord) (s : Store D)
      → Writes next handle
      → Moved fs codec limits Writes start s
      → ((r : OperationRecord)
          → found ≡ ok r
          → (e : Entry) × (entry_of handle s.records ≡ some e) × (e.operation ≡ r))
      → Fine fs codec limits Writes start
          (transition_found fs codec limits random expected next payload found s)
  transition_found-Fine start random expected next payload handle (err e) s written h known =
      inr h.0
  transition_found-Fine start random expected next payload handle (ok r) s written h known =
      let (e, found, same) = known r refl in
      if_Fine fs codec limits Writes start (same_state r.state expected && may_become r.state next)
        _ _
        (λ passed.
          moved-Fine start random r next (next_payload payload r.payload) s h e
            (at_own_handle handle e r s.records found same) same (ground arith)
            (subst (Writes next) (own_handle handle e r s.records found same) written))
        (inr h.0)

  acknowledge_found-Fine :
      (start : List Entry) (handle : Text) (found : Result OperationRecord) (s : Store D)
      → Moved fs codec limits Writes start s
      → ((r : OperationRecord)
          → found ≡ ok r
          → (e : Entry) × (entry_of handle s.records ≡ some e) × (e.operation ≡ r))
      → Fine fs codec limits Writes start (acknowledge_found fs codec limits handle found s)
  acknowledge_found-Fine start handle (err e) s h known = inr h.0
  acknowledge_found-Fine start handle (ok r) s h known =
      let (e, found, same) = known r refl in
      if_Fine fs codec limits Writes start (same_state r.state aborted || same_state r.state undone)
        _ _
        (λ ended.
          subst (λ t. Fine fs codec limits Writes start (remove fs codec limits t s))
            (entry_of-handle handle s.records e found)
            (remove-Fine fs codec limits Writes start e s h (at_handle handle e s.records found)
              (ap (λ o. is_expirable o.state) same ∙ ended_is_expirable r.state ended)))
        (inr h.0)

  Fine-Outcome {ℓ} :
      {A : Type ℓ} (start : List Entry) (p : Store D × Result A)
      → Fine fs codec limits Writes start p
      → Outcome fs codec limits Writes start p.0
  Fine-Outcome start (s, ok a) h = inr h.0
  Fine-Outcome start (s, err e) h = h

  answer-Fine {ℓ} :
      {A : Type ℓ} (start : List Entry) (s : Store D) (r : Result A)
      → Moved fs codec limits Writes start s
      → Fine fs codec limits Writes start (s, r)
  answer-Fine start s (ok a) h = h
  answer-Fine start s (err e) h = inr h.0

  run-Fine {ℓ} :
      {A : Type ℓ} (action : Store D → Store D × Result A) (s : Store D)
      → Fine fs codec limits Writes s.records (action s)
      → Fine fs codec limits Writes s.records (run action s)
  run-Fine action s h =
      if_Fine fs codec limits Writes s.records s.is_closed (s, err closed) (action s)
        (λ e. inr stay) h

  closed_or_open :
      (shut : Bool) (s : Store D)
      → Outcome fs codec limits Writes s.records
          (if◌then◌else◌ {A = Store D × Result (Unit {0})} shut
            (s, err closed)
            (close_key s, ok tt)).0
  closed_or_open true s = inr stay
  closed_or_open false s = inl (refl, refl)

  shut_run {ℓ} :
      {A : Type ℓ} (shut : Bool) (s : Store D) (other : Store D × Result A)
      → shut ≡ true
      → (if◌then◌else◌ {A = Store D × Result A} shut (s, err closed) other).0 ≡ s
  shut_run true s other h = refl
  shut_run false s other h = absurd (ground arith)

  -- A closed store stays as it is.
  pub perform-closed :
      (call : StoreCall) (s : Store D) → s.is_closed ≡ true → perform fs codec limits call s ≡ s
  unfolding perform insert get list_owned transition acknowledge close
  perform-closed (inserting c c' random handle kind payload ttl) s h = shut_run s.is_closed s _ h
  perform-closed (getting c handle owner) s h = shut_run s.is_closed s _ h
  perform-closed (listing c owner) s h = shut_run s.is_closed s _ h
  perform-closed (moving c random handle expected next payload owner) s h =
      shut_run s.is_closed s _ h
  perform-closed (acknowledging c handle) s h = shut_run s.is_closed s _ h
  perform-closed closing s h = shut_run s.is_closed s _ h

  -- Every call on a store whose records have distinct handles closes and empties it, or moves its
  -- records on by steps of the abstract store: a new prepared record, or the next state of a known
  -- one that keeps its kind and times, is written where there is room, and a record leaves in a
  -- state in which it may expire.
  pub perform-Outcome :
      (call : StoreCall) (s : Store D)
      → Distinct s.records
      → MayWrite Writes call
      → Outcome fs codec limits Writes s.records (perform fs codec limits call s)
  unfolding perform insert get list_owned transition acknowledge close
  perform-Outcome (inserting c c' random handle kind payload ttl) s d entered =
      Fine-Outcome s.records (insert fs codec limits c c' random handle kind payload ttl s) (
        run-Fine
          (insert_parsed fs codec limits c' random handle (parse_kind kind) (text_or_none payload)
            (safe_from 1 ttl) c)
          s
          (insert_parsed-Fine s.records c' random handle (parse_kind kind) (text_or_none payload)
            (safe_from 1 ttl) c s entered (stay, d)))
  perform-Outcome (getting c handle owner) s d entered =
      Fine-Outcome s.records (get fs codec limits c handle owner s) (
        if_Fine fs codec limits Writes s.records s.is_closed _ _ (λ e. inr stay)
          (expire_then-Fine fs codec limits Writes s.records c s _ (stay, d)
            (λ s' h.
              answer-Fine s.records s' (owned_lookup fs codec limits handle owner s'.records) h)))
  perform-Outcome (listing c owner) s d entered =
      Fine-Outcome s.records (list_owned fs codec limits c owner s) (
        if_Fine fs codec limits Writes s.records s.is_closed _ _ (λ e. inr stay)
          (expire_then-Fine fs codec limits Writes s.records c s _ (stay, d) (λ s' h. h)))
  perform-Outcome (moving c random handle expected next payload owner) s d entered =
      Fine-Outcome s.records
        (transition fs codec limits c random handle expected next payload owner s)
        (if_Fine fs codec limits Writes s.records s.is_closed _ _ (λ e. inr stay)
          (expire_then-Fine fs codec limits Writes s.records c s _ (stay, d)
            (λ s' h.
              transition_found-Fine s.records random expected next payload handle
                (owned_lookup fs codec limits handle owner s'.records) s' entered h
                (λ r e. owned_found handle owner s'.records r e))))
  perform-Outcome (acknowledging c handle) s d entered =
      Fine-Outcome s.records (acknowledge fs codec limits c handle s) (
        if_Fine fs codec limits Writes s.records s.is_closed _ _ (λ e. inr stay)
          (expire_then-Fine fs codec limits Writes s.records c s _ (stay, d)
            (λ s' h.
              acknowledge_found-Fine s.records handle (lookup handle s'.records) s' h
                (λ r e. lookup_found handle s'.records r e))))
  perform-Outcome closing s d entered = closed_or_open s.is_closed s
