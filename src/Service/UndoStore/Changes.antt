-- ===== src/Service/UndoStore/Changes.antt =====
-- service/notes-undo-store.ts: the operations as steps of an abstract store, in which a record is
-- entered, moves along the table of transitions, and leaves.
use nook_bridge.Common.{
  ℕ, ◌+◌, ◌≡◌, ◌⊎◌, refl, Bool, true, false, ◌&&◌, Option, none, some, Text, List, [], ◌∷◌, arith,
  inl, inr, leb, ltb, if◌then◌else◌,
}
use nook_bridge.Service.UndoStore.Types.{
  OperationState, prepared, OperationRecord, Entry, Limits, may_become, is_expirable, Result, ok,
  err, OperationStoreFs, Codec, Randomness, Store, entry_of, put, drop,
}
use nook_bridge.Service.UndoStore.Records.{
  Distinct, Distinct-put, Distinct-drop, AreIn, Distinct-AreIn, AreIn-drop,
}
use nook_bridge.Service.UndoStore.{
  and_then, after_io, has_room, installed, persist, remove, expire_each, expire, erase, write_frame,
}

-- What may be written over the records: a new prepared record, or the next state of a known one,
-- which keeps its kind and its times. `Writes` says which states are
-- written under which handles.
abbrev pub Legal : (OperationState → Text → Type 0) → List Entry → OperationRecord → Type 0
Legal Writes records new =
    ((entry_of new.handle records ≡ none) × (new.state ≡ prepared) × Writes prepared new.handle)
    ⊎ ((old : Entry) × (entry_of new.handle records ≡ some old)
        × (may_become old.operation.state new.state ≡ true)
        × (new.kind ≡ old.operation.kind)
        × (new.created_at ≡ old.operation.created_at)
        × (new.expires_at ≡ old.operation.expires_at)
        × Writes new.state new.handle)

module _ {D Frame : Type 0} (fs : OperationStoreFs D Frame) (codec : Codec Frame) (limits : Limits)
    (Writes : OperationState → Text → Type 0) where
  pub data Step : List Entry → List Entry → Type 0 where
    writes :
        {records : List Entry} (new : Entry)
        → Legal Writes records new.operation
        → has_room fs codec limits records new.operation.handle new.bytes ≡ true
        → Step records (put new records)
    leaves :
        {records : List Entry} (old : Entry)
        → entry_of old.operation.handle records ≡ some old
        → is_expirable old.operation.state ≡ true
        → Step records (drop old.operation.handle records)

  pub data Steps : List Entry → List Entry → Type 0 where
    stay : {records : List Entry} → Steps records records
    then_step : {a b c : List Entry} → Steps a b → Step b c → Steps a c

  -- The store is closed and empty, or its records have moved on by steps.
  abbrev pub Outcome : List Entry → Store D → Type 0
  Outcome start s = ((s.is_closed ≡ true) × (s.records ≡ [])) ⊎ Steps start s.records

  abbrev pub Moved : List Entry → Store D → Type 0
  Moved start s = Steps start s.records × Distinct s.records

  -- What each operation's result satisfies: without an error the records have moved on.
  abbrev pub Fine {ℓ} : {A : Type ℓ} → List Entry → Store D × Result A → Type 0
  Fine start (s, ok a) = Moved start s
  Fine start (s, err e) = Outcome start s

  pub and_then-Fine {ℓ κ} :
      {A : Type ℓ} {B : Type κ} (start : List Entry) (p : Store D × Result A)
      (next : A → Store D → Store D × Result B)
      → Fine start p
      → ((a : A) (s : Store D) → Moved start s → Fine start (next a s))
      → Fine start (and_then p next)
  and_then-Fine start (s, ok a) next h f = f a s h
  and_then-Fine start (s, err e) next h f = h

  pub after_io-Fine :
      (start : List Entry) (s : Store D) (p : D × Bool) → Moved start s → Fine start (after_io s p)
  after_io-Fine start s (disk, true) h = h
  after_io-Fine start s (disk, false) h = inl (refl, refl)

  -- An input or output keeps the records, or fails.
  io_then-Fine {ℓ} :
      {B : Type ℓ} (start : List Entry) (s : Store D) (p : D × Bool)
      (next : Unit {0} → Store D → Store D × Result B)
      → ((disk : D) → Fine start (next tt (record s { disk = disk })))
      → Fine start (and_then (after_io s p) next)
  io_then-Fine start s (disk, true) next f = f disk
  io_then-Fine start s (disk, false) next f = inl (refl, refl)

  pub if_Fine {ℓ} :
      {A : Type ℓ} (start : List Entry) (b : Bool) (x y : Store D × Result A)
      → (b ≡ true → Fine start x)
      → Fine start y
      → Fine start (if b then x else y)
  if_Fine start true x y f g = f refl
  if_Fine start false x y f g = g

  pub persist-Fine :
      (start : List Entry) (random : Randomness) (new : OperationRecord) (s : Store D)
      → Moved start s
      → Legal Writes s.records new
      → Fine start (persist fs codec limits random new s)
  unfolding persist
  persist-Fine start random new s (moved, distinct) legal =
      let entry : Entry = record {
        operation = new;
        bytes = codec.frame_bytes (codec.encode random.nonce new);
      } in
      if_Fine start (ltb limits.max_record_bytes (codec.payload_bytes new.payload)) _ _
        (λ e. inr moved)
        (if_Fine start (ltb limits.max_record_bytes (codec.plain_bytes new + 32)) _ _
          (λ e. inr moved)
          (if_Fine start (has_room fs codec limits s.records new.handle entry.bytes) _ _
            (λ room.
              io_then-Fine start s
                (write_frame fs codec limits s.disk random new.handle
                  (codec.encode random.nonce new))
                (λ u s'. installed new entry.bytes s')
                (λ disk. (
                  then_step moved (writes entry legal room),
                  Distinct-put entry s.records distinct,
                )))
            (inr moved)))

  pub remove-Fine :
      (start : List Entry) (old : Entry) (s : Store D)
      → Moved start s
      → entry_of old.operation.handle s.records ≡ some old
      → is_expirable old.operation.state ≡ true
      → Fine start (remove fs codec limits old.operation.handle s)
  unfolding remove
  remove-Fine start old s (moved, distinct) found may =
      io_then-Fine start s (erase fs codec limits s.disk old.operation.handle) _ (λ disk. (
        then_step moved (leaves old found may),
        Distinct-drop old.operation.handle s.records distinct,
      ))

  dropped_then-Fine :
      (start : List Entry) (old : Entry) (s : Store D) (p : D × Bool)
      (next : Unit {0} → Store D → Store D × Result (Unit {0}))
      → ((disk : D)
          → Fine start (
              next tt (record {
                records = drop old.operation.handle s.records;
                is_closed = s.is_closed;
                disk = disk;
              })))
      → Fine start (
          and_then
            (and_then
              (after_io s p)
              (λ u s'. (record s' { records = drop old.operation.handle s'.records }, ok tt)))
            next)
  dropped_then-Fine start old s (disk, true) next f = f disk
  dropped_then-Fine start old s (disk, false) next f = inl (refl, refl)

  pub expire_each-Fine :
      (start : List Entry) (t : ℕ) (es : List Entry) (s : Store D)
      → Moved start s
      → Distinct es
      → AreIn s.records es
      → Fine start (expire_each fs codec limits t es s)
  unfolding expire_each remove
  expire_each-Fine start t [] s moved distinct found = moved
  expire_each-Fine start t (e ∷ es) s (moved, unique) (apart, distinct) (here, found) =
      if_Fine start (leb e.operation.expires_at t && is_expirable e.operation.state) _ _
        (λ due.
          dropped_then-Fine start e s (erase fs codec limits s.disk e.operation.handle)
            (λ u s'. expire_each fs codec limits t es s')
            (λ disk.
              expire_each-Fine start t es _
                (
                  then_step moved (leaves e here (ground arith)),
                  Distinct-drop e.operation.handle s.records unique,
                )
                distinct (AreIn-drop e.operation.handle s.records es apart found)))
        (expire_each-Fine start t es s (moved, unique) distinct found)

  pub expire-Fine :
      (start : List Entry) (clock : Option ℕ) (s : Store D)
      → Moved start s
      → Fine start (expire fs codec limits clock s)
  unfolding expire
  expire-Fine start none s (moved, unique) = inr moved
  expire-Fine start (some t) s (moved, unique) =
      expire_each-Fine start t s.records s (moved, unique) unique (Distinct-AreIn s.records unique)

  -- An action after the records that are due have left.
  pub expire_then-Fine {ℓ} :
      {B : Type ℓ} (start : List Entry) (clock : Option ℕ) (s : Store D)
      (next : Unit {0} → Store D → Store D × Result B)
      → Moved start s
      → ((s : Store D) → Moved start s → Fine start (next tt s))
      → Fine start (and_then (expire fs codec limits clock s) next)
  expire_then-Fine start clock s next moved f =
      and_then-Fine start (expire fs codec limits clock s) next (expire-Fine start clock s moved)
        (λ u s' h. f s' h)
