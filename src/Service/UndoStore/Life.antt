-- ===== src/Service/UndoStore/Life.antt =====
-- service/notes-undo-store.ts: what any sequence of calls on the store keeps: distinct handles, the
-- bounds on the records and their bytes, and the life of each record.
use nook_bridge.Common.{
  ◌≤◌, ◌≡◌, ◌⊎◌, refl, sym, ap, subst, ◌∙◌, Bool, true, false, not, All, Option, none, some, List,
  [], ◌∷◌, Text, text_eq, text_eq_sound, arith, Bool-cases, inl, inr, if◌then◌else◌, length,
  length-keep-le,
}
use nook_bridge.Service.UndoStore.Types.{
  OperationState, prepared, Entry, Limits, may_become, is_expirable, OperationStoreFs, Codec, Store,
  entry_of, put, drop, total_bytes,
}
use nook_bridge.Service.UndoStore.Records.{
  Distinct, Distinct-put, Distinct-drop, length-put, total_bytes-put-le, total_bytes-drop-le,
  text_eq_sym, entry_of-drop-other,
}
use nook_bridge.Service.UndoStore.{has_room}
use nook_bridge.Service.UndoStore.Changes.{
  Legal, Step, Steps, writes, leaves, stay, then_step, Outcome,
}
use nook_bridge.Service.UndoStore.Calls.{
  StoreCall, inserting, getting, listing, moving, acknowledging, closing, MayWrite, perform,
  perform-closed, perform-Outcome,
}

-- The records fit the limits.
pub record Fits (limits : Limits) (records : List Entry) : Type 0 where
  pub few : length records ≤ limits.max_records
  pub small : total_bytes records ≤ limits.max_total_bytes

-- A state comes from another along the table, with every state on the way among those written.
pub data Becomes (written : OperationState → Bool) (a : OperationState)
    : OperationState → Type 0 where
  still : Becomes written a a
  moves :
      {b c : OperationState}
      → Becomes written a b
      → may_become b c ≡ true
      → written c ≡ true
      → Becomes written a c

-- What a record may be later: itself with a state that its own leads to along the table, or gone
-- from a state in which it may expire. Where there is no record, there is none later.
abbrev pub Life : (OperationState → Bool) → Option Entry → Option Entry → Type 0
Life written none none = Unit
Life written none (some e) = ⊥
Life written (some e) none =
    (last : OperationState) × Becomes written e.operation.state last × (is_expirable last ≡ true)
Life written (some e) (some e') =
    Becomes written e.operation.state e'.operation.state
    × (e'.operation.kind ≡ e.operation.kind)
    × (e'.operation.created_at ≡ e.operation.created_at)
    × (e'.operation.expires_at ≡ e.operation.expires_at)

Life-refl : (written : OperationState → Bool) (o : Option Entry) → Life written o o
Life-refl written none = tt
Life-refl written (some e) = (still, refl, refl, refl)

-- Under one handle only some states are written.
abbrev pub WritesAt : Text → (OperationState → Bool) → OperationState → Text → Type 0
WritesAt h written state t = text_eq t h ≡ true → written state ≡ true

abbrev pub state_in : Option Entry → Option OperationState
state_in none = none
state_in (some e) = some e.operation.state

abbrev pub state_of : Text → List Entry → Option OperationState
state_of h records = state_in (entry_of h records)

entry_of-put :
    (h : Text) (new : Entry) (es : List Entry)
    → entry_of h (put new es) ≡ (if text_eq new.operation.handle h then some new else entry_of h es)
unfolding put entry_of
entry_of-put h new [] = refl
entry_of-put h new (e ∷ es) =
    let rest = entry_of-put h new es in
    elim (Bool-cases (text_eq e.operation.handle new.operation.handle)) [
      | inl eq ↦
          let alike : text_eq e.operation.handle h ≡ text_eq new.operation.handle h =
            ap (λ t. text_eq t h) (text_eq_sound e.operation.handle new.operation.handle eq) in
          rw eq (ground arith)
      | inr apart ↦ elim (Bool-cases (text_eq e.operation.handle h)) [
        | inl here ↦
            let other : text_eq new.operation.handle h ≡ false =
              ap (text_eq new.operation.handle) (sym (text_eq_sound e.operation.handle h here))
              ∙ text_eq_sym new.operation.handle e.operation.handle
              ∙ apart in
            rw (apart, here, other) refl
        | inr away ↦ rw (apart, away) rest
      ]
    ]

entry_of-drop : (h : Text) (es : List Entry) → entry_of h (drop h es) ≡ none
unfolding drop entry_of
entry_of-drop h [] = refl
entry_of-drop h (e ∷ es) = ground (arith, entry_of-drop h es)

written-Life :
    (written : OperationState → Bool) (first : Option Entry) (old new : Entry)
    → Life written first (some old)
    → may_become old.operation.state new.operation.state ≡ true
    → written new.operation.state ≡ true
    → new.operation.kind ≡ old.operation.kind
    → new.operation.created_at ≡ old.operation.created_at
    → new.operation.expires_at ≡ old.operation.expires_at
    → Life written first (some new)
written-Life written none old new l may ok k c x = absurd l
written-Life written (some e) old new (states, k', c', x') may ok k c x =
    (moves states may ok, k ∙ k', c ∙ c', x ∙ x')

gone-Life :
    (written : OperationState → Bool) (first : Option Entry) (old : Entry)
    → Life written first (some old)
    → is_expirable old.operation.state ≡ true
    → Life written first none
gone-Life written none old l may = tt
gone-Life written (some e) old (states, _, _, _) may = (old.operation.state, states, may)

-- What may be written under a handle under which nothing is entered continues the life there.
Legal-Life :
    (h : Text) (written : OperationState → Bool) (first : Option Entry) (records : List Entry)
    (new : Entry)
    → written prepared ≡ false
    → text_eq new.operation.handle h ≡ true
    → Legal (WritesAt h written) records new.operation
    → Life written first (entry_of new.operation.handle records)
    → Life written first (some new)
Legal-Life h written first records new never here (inl (nobody, fresh, ok)) l =
    let allowed = ok here in absurd (ground arith)
Legal-Life h written first records new never here (inr (old, found, may, k, c, x, ok)) l =
    written-Life written first old new (subst (Life written first) found l) may (ok here) k c x

at_same : (a b : Text) (es : List Entry) → text_eq a b ≡ true → entry_of a es ≡ entry_of b es
at_same a b es h = ap (λ t. entry_of t es) (text_eq_sound a b h)

pub put_same :
    (h : Text) (new : Entry) (es : List Entry)
    → text_eq new.operation.handle h ≡ true
    → entry_of h (put new es) ≡ some new
put_same h new es here = let after = entry_of-put h new es in ground arith

pub put_other :
    (h : Text) (new : Entry) (es : List Entry)
    → text_eq new.operation.handle h ≡ false
    → entry_of h (put new es) ≡ entry_of h es
put_other h new es away = let after = entry_of-put h new es in ground arith

pub dropped_at : (a h : Text) (es : List Entry) → text_eq a h ≡ true → entry_of h (drop a es) ≡ none
dropped_at a h es here =
    ap (λ t. entry_of t (drop a es)) (sym (text_eq_sound a h here)) ∙ entry_of-drop a es

module _ {D Frame : Type 0} (fs : OperationStoreFs D Frame) (codec : Codec Frame) (limits : Limits)
    (h : Text) (written : OperationState → Bool) (never : written prepared ≡ false) where
  Step-Life :
      (first : Option Entry) (a b : List Entry)
      → Step fs codec limits (WritesAt h written) a b
      → Life written first (entry_of h a)
      → Life written first (entry_of h b)
  Step-Life first a b (writes new legal room) l =
      elim (Bool-cases (text_eq new.operation.handle h)) [
        | inl here ↦ subst (Life written first) (sym (put_same h new a here)) (
            Legal-Life h written first a new never here legal
              (subst (Life written first) (sym (at_same new.operation.handle h a here)) l))
        | inr away ↦ subst (Life written first) (sym (put_other h new a away)) l
      ]
  Step-Life first a b (leaves old found may) l =
      elim (Bool-cases (text_eq old.operation.handle h)) [
        | inl here ↦ subst (Life written first) (sym (dropped_at old.operation.handle h a here)) (
            gone-Life written first old
              (subst (Life written first) (sym (at_same old.operation.handle h a here) ∙ found) l)
              may)
        | inr away ↦
            subst (Life written first)
              (sym (
                entry_of-drop-other old.operation.handle h a
                  (text_eq_sym h old.operation.handle ∙ away)))
              l
      ]

  Steps-Life :
      (a b : List Entry)
      → Steps fs codec limits (WritesAt h written) a b
      → Life written (entry_of h a) (entry_of h b)
  Steps-Life a b stay = Life-refl written (entry_of h a)
  Steps-Life a b (then_step steps last) = Step-Life (entry_of h a) _ b last (Steps-Life a _ steps)

module _ {D Frame : Type 0} (fs : OperationStoreFs D Frame) (codec : Codec Frame)
    (limits : Limits) where
  nothing_fits : Fits limits []
  unfolding total_bytes
  nothing_fits = record { few = omega arith; small = omega arith }

  pub put-Fits :
      (new : Entry) (records : List Entry)
      → has_room fs codec limits records new.operation.handle new.bytes ≡ true
      → Fits limits records
      → Fits limits (put new records)
  put-Fits new records room fits =
      let count = length-put new records in
      let bytes = total_bytes-put-le new records in
      let few = fits.few in record { few = ground arith; small = ground arith }

  pub drop-Fits :
      (h : Text) (records : List Entry) → Fits limits records → Fits limits (drop h records)
  unfolding drop
  drop-Fits h records fits =
      let count = length-keep-le (λ e. not (text_eq e.operation.handle h)) records in
      let bytes = total_bytes-drop-le h records in
      let few = fits.few in
      let small = fits.small in record { few = omega arith; small = ground arith }

  abbrev pub perform_all : List StoreCall → Store D → Store D
  perform_all [] s = s
  perform_all (c ∷ cs) s = perform_all cs (perform fs codec limits c s)

module _ {D Frame : Type 0} (fs : OperationStoreFs D Frame) (codec : Codec Frame) (limits : Limits)
    (Writes : OperationState → Text → Type 0) where
  Steps-Distinct : (a b : List Entry) → Steps fs codec limits Writes a b → Distinct a → Distinct b
  Steps-Distinct a b stay d = d
  Steps-Distinct a b (then_step steps (writes new legal room)) d =
      Distinct-put new _ (Steps-Distinct a _ steps d)
  Steps-Distinct a b (then_step steps (leaves old found may)) d =
      Distinct-drop old.operation.handle _ (Steps-Distinct a _ steps d)

  Steps-Fits : (a b : List Entry) → Steps fs codec limits Writes a b → Fits limits a → Fits limits b
  Steps-Fits a b stay f = f
  Steps-Fits a b (then_step steps (writes new legal room)) f =
      put-Fits fs codec limits new _ room (Steps-Fits a _ steps f)
  Steps-Fits a b (then_step steps (leaves old found may)) f =
      drop-Fits fs codec limits old.operation.handle _ (Steps-Fits a _ steps f)

  Steps-append :
      (a b c : List Entry)
      → Steps fs codec limits Writes a b
      → Steps fs codec limits Writes b c
      → Steps fs codec limits Writes a c
  Steps-append a b c first stay = first
  Steps-append a b c first (then_step rest last) = then_step (Steps-append a b _ first rest) last

  Outcome-Steps :
      (start middle : List Entry) (s : Store D)
      → Steps fs codec limits Writes start middle
      → Outcome fs codec limits Writes middle s
      → Outcome fs codec limits Writes start s
  Outcome-Steps start middle s first (inl shut) = inl shut
  Outcome-Steps start middle s first (inr rest) =
      inr (Steps-append start middle s.records first rest)

  kept :
      (start : List Entry) (s : Store D)
      → Distinct start
      → Fits limits start
      → Outcome fs codec limits Writes start s
      → Distinct s.records × Fits limits s.records
  kept start s d f (inr steps) =
      (Steps-Distinct start s.records steps d, Steps-Fits start s.records steps f)
  kept start s d f (inl (shut, empty)) =
      subst (λ rs. Distinct rs × Fits limits rs) (sym empty) (tt, nothing_fits fs codec limits)

  -- A sequence of calls ends as one call does.
  perform_all-Outcome :
      (calls : List StoreCall) (start : List Entry) (s : Store D)
      → Distinct start
      → All (MayWrite Writes) calls
      → Outcome fs codec limits Writes start s
      → Outcome fs codec limits Writes start (perform_all fs codec limits calls s)
  perform_all-Outcome [] start s d tt h = h
  perform_all-Outcome (c ∷ cs) start s d (ok, oks) (inl (shut, empty)) =
      perform_all-Outcome cs start (perform fs codec limits c s) d oks (
        subst (Outcome fs codec limits Writes start)
          (sym (perform-closed fs codec limits Writes c s shut)) (inl (shut, empty)))
  perform_all-Outcome (c ∷ cs) start s d (ok, oks) (inr moved) =
      perform_all-Outcome cs start (perform fs codec limits c s) d oks (
        Outcome-Steps start s.records (perform fs codec limits c s) moved
          (perform-Outcome fs codec limits Writes c s (Steps-Distinct start s.records moved d) ok))

lives :
    {D Frame : Type 0} (fs : OperationStoreFs D Frame) (codec : Codec Frame) (limits : Limits)
    (h : Text) (written : OperationState → Bool) (start : List Entry) (s : Store D)
    → written prepared ≡ false
    → Outcome fs codec limits (WritesAt h written) start s
    → ((s.is_closed ≡ true) × (s.records ≡ []))
      ⊎ Life written (entry_of h start) (entry_of h s.records)
lives fs codec limits h written start s never (inl shut) = inl shut
lives fs codec limits h written start s never (inr steps) =
    inr (Steps-Life fs codec limits h written never start s.records steps)

-- Where no limit is set on what is written.
abbrev AnyWrite : OperationState → Text → Type 0
AnyWrite state h = Unit

any_call : (call : StoreCall) → MayWrite AnyWrite call
any_call (inserting c c' random handle kind payload ttl) = tt
any_call (getting c handle owner) = tt
any_call (listing c owner) = tt
any_call (moving c random handle expected next payload owner) = tt
any_call (acknowledging c handle) = tt
any_call closing = tt

any_calls : (calls : List StoreCall) → All (MayWrite AnyWrite) calls
any_calls [] = tt
any_calls (c ∷ cs) = (any_call c, any_calls cs)

module _ {D Frame : Type 0} (fs : OperationStoreFs D Frame) (codec : Codec Frame)
    (limits : Limits) where
  -- On a store with distinct handles, let the calls that insert or move the record of a handle ask
  -- for certain states only, `prepared` not among them. After the calls the store is closed and
  -- empty, or: where the handle had no record, it has none; where it had one, the record is there
  -- with its kind and its times, in a state to which its first one leads along the table through
  -- states that were asked for, or it is gone and such a state is one in which it may expire.
  pub records_live_by_the_table :
      (h : Text) (written : OperationState → Bool) (calls : List StoreCall) (s : Store D)
      → written prepared ≡ false
      → All (MayWrite (WritesAt h written)) calls
      → Distinct s.records
      → (((perform_all fs codec limits calls s).is_closed ≡ true)
          × ((perform_all fs codec limits calls s).records ≡ []))
        ⊎ Life written
            (entry_of h s.records)
            (entry_of h (perform_all fs codec limits calls s).records)
  records_live_by_the_table h written calls s never asked d =
      lives fs codec limits h written s.records (perform_all fs codec limits calls s) never (
        perform_all-Outcome fs codec limits (WritesAt h written) calls s.records s d asked
          (inr stay))

  -- Any sequence of calls keeps the handles distinct and the records within the limits on their
  -- number and their bytes.
  pub perform_all-Fits :
      (calls : List StoreCall) (s : Store D)
      → Distinct s.records
      → Fits limits s.records
      → Distinct (perform_all fs codec limits calls s).records
        × Fits limits (perform_all fs codec limits calls s).records
  perform_all-Fits calls s d f =
      kept fs codec limits AnyWrite s.records (perform_all fs codec limits calls s) d f (
        perform_all-Outcome fs codec limits AnyWrite calls s.records s d (any_calls calls)
          (inr stay))
