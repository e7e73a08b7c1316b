-- ===== src/Service/UndoStore/Opened.antt =====
-- service/notes-undo-store.ts: a store that opened: no write is left in doubt.
use nook_bridge.Common.{
  ℕ, ◌+◌, ◌*◌, ◌≡◌, ◌≢◌, refl, subst, true, ◌&&◌, ◌||◌, Option, none, some, List, [], ◌∷◌, Text,
  arith, leb, ltb, if◌then◌else◌, length, keep,
}
use nook_bridge.Service.Operator.Context.{is_operation_handle}
use nook_bridge.Service.UndoStore.Types.{
  committing, unresolved, OperationRecord, Entry, Limits, same_state, is_expirable, Result, ok, err,
  quota, corrupt, OperationStoreFs, Codec, Randomness, Store, entry_of, put, drop, total_bytes,
}
use nook_bridge.Service.UndoStore.Records.{Distinct, Distinct-put, Distinct-drop}
use nook_bridge.Service.UndoStore.Life.{Fits, state_of, drop-Fits, put-Fits}
use nook_bridge.Service.UndoStore.{
  has_room, installed, persist, remove, erase, write_frame, expire_each, expire,
}
use nook_bridge.Service.UndoStore.Recovery.{
  decode, is_temp_name, add_decoded, add_frame, read_records, remove_all, settle_each, recheck,
  settle_and_expire, clean_up, check_again, read_in, has_strangers, open_names, or_closed, empty,
  open_store,
}
use nook_bridge.Service.UndoStore.Settling.{
  OnOk, and_then-OnOk, if_OnOk, io_then-OnOk, Settling, settle_put, settle_skip, Settling-drop,
  Settling-start,
}

module _ {D Frame : Type 0} (fs : OperationStoreFs D Frame) (codec : Codec Frame)
    (limits : Limits) where
  -- A property of the records that survives dropping holds after records have expired.
  remove-OnOk :
      (P : List Entry → Type 0) (h : Text) (s : Store D)
      → P (drop h s.records)
      → OnOk (λ s. P s.records) (remove fs codec limits h s)
  unfolding remove
  remove-OnOk P h s p =
      io_then-OnOk (λ s. P s.records) s (erase fs codec limits s.disk h) _ (λ disk. p)

  expire_each-OnOk :
      (P : List Entry → Type 0)
      → ((h : Text) (records : List Entry) → P records → P (drop h records))
      → (t : ℕ) (es : List Entry) (s : Store D) → P s.records
      → OnOk (λ s. P s.records) (expire_each fs codec limits t es s)
  unfolding expire_each
  expire_each-OnOk P f t [] s p = p
  expire_each-OnOk P f t (e ∷ es) s p =
      if_OnOk (λ s. P s.records) (leb e.operation.expires_at t && is_expirable e.operation.state) _
        _
        (λ due.
          and_then-OnOk (λ s. P s.records) (λ s. P s.records)
            (remove fs codec limits e.operation.handle s) _
            (remove-OnOk P e.operation.handle s (f e.operation.handle s.records p))
            (λ u s' p'. expire_each-OnOk P f t es s' p'))
        (λ later. expire_each-OnOk P f t es s p)

  expire-OnOk :
      (P : List Entry → Type 0)
      → ((h : Text) (records : List Entry) → P records → P (drop h records))
      → (clock : Option ℕ) (s : Store D) → P s.records
      → OnOk (λ s. P s.records) (expire fs codec limits clock s)
  unfolding expire
  expire-OnOk P f none s p = tt
  expire-OnOk P f (some t) s p = expire_each-OnOk P f t s.records s p

  remove_all-OnOk :
      (P : List Entry → Type 0)
      → ((h : Text) (records : List Entry) → P records → P (drop h records))
      → (names : List Text) (s : Store D) → P s.records
      → OnOk (λ s. P s.records) (remove_all fs codec limits names s)
  unfolding remove_all
  remove_all-OnOk P f [] s p = p
  remove_all-OnOk P f (name ∷ names) s p =
      and_then-OnOk (λ s. P s.records) (λ s. P s.records) (remove fs codec limits name s) _
        (remove-OnOk P name s (f name s.records p)) (λ u s' p'. remove_all-OnOk P f names s' p')

  -- A write that returned has put its record where there was room.
  persist-OnOk :
      (P : List Entry → Type 0) (random : Randomness) (new : OperationRecord) (s : Store D)
      → ((bytes : ℕ)
          → has_room fs codec limits s.records new.handle bytes ≡ true
          → P (put (record { operation = new; bytes = bytes }) s.records))
      → OnOk (λ s. P s.records) (persist fs codec limits random new s)
  unfolding persist
  persist-OnOk P random new s p =
      let bytes = codec.frame_bytes (codec.encode random.nonce new) in
      if_OnOk (λ s. P s.records) (ltb limits.max_record_bytes (codec.payload_bytes new.payload)) _ _
        (λ e. tt)
        (λ e.
          if_OnOk (λ s. P s.records) (ltb limits.max_record_bytes (codec.plain_bytes new + 32)) _ _
            (λ e. tt)
            (λ e.
              if_OnOk (λ s. P s.records) (has_room fs codec limits s.records new.handle bytes) _ _
                (λ room.
                  io_then-OnOk (λ s. P s.records) s
                    (write_frame fs codec limits s.disk random new.handle
                      (codec.encode random.nonce new))
                    (λ u s'. installed new bytes s') (λ disk. p bytes room))
                (λ full. tt)))

  abbrev Sound : List Entry → Type 0
  Sound records = Settling [] records × Fits limits records

  Sound-drop : (h : Text) (records : List Entry) → Sound records → Sound (drop h records)
  Sound-drop h records (settled, fits) =
      (Settling-drop h records settled, drop-Fits fs codec limits h records fits)

  settle_each-OnOk :
      (random : Text → Randomness) (es : List Entry) (s : Store D)
      → Distinct es
      → Settling es s.records
      → Fits limits s.records
      → OnOk (λ s. Sound s.records) (settle_each fs codec limits random es s)
  unfolding settle_each
  settle_each-OnOk random [] s d h f = (h, f)
  settle_each-OnOk random (e ∷ es) s d h f =
      if_OnOk (λ s. Sound s.records) (same_state e.operation.state committing) _ _
        (λ doubt.
          and_then-OnOk (λ s. Settling es s.records × Fits limits s.records) (λ s. Sound s.records)
            (persist fs codec limits (random e.operation.handle)
              (record e.operation { state = unresolved }) s)
            _
            (persist-OnOk (λ rs. Settling es rs × Fits limits rs) (random e.operation.handle)
              (record e.operation { state = unresolved }) s
              (λ bytes room.
                (settle_put e es s.records bytes d h, put-Fits fs codec limits _ s.records room f)))
            (λ u s' p. settle_each-OnOk random es s' d.1 p.0 p.1))
        (λ fine. settle_each-OnOk random es s d.1 (settle_skip e es s.records fine h) f)

  add_decoded-OnOk :
      (bytes : ℕ) (o : Option OperationRecord) (s : Store D)
      → Distinct s.records
      → OnOk (λ s. Distinct s.records) (add_decoded fs codec limits bytes o s)
  add_decoded-OnOk bytes none s d = tt
  add_decoded-OnOk bytes (some r) s d = Distinct-put _ s.records d

  add_frame-OnOk :
      (name : Text) (recovered : ℕ) (o : Option Frame) (s : Store D)
      → Distinct s.records
      → OnOk (λ s. Distinct s.records) (add_frame fs codec limits name recovered o s)
  add_frame-OnOk name recovered none s d = tt
  add_frame-OnOk name recovered (some frame) s d =
      if_OnOk (λ s. Distinct s.records)
        (ltb limits.max_record_bytes (codec.frame_bytes frame)
          || ltb limits.max_total_bytes (recovered + codec.frame_bytes frame)
          || leb limits.max_records (length s.records))
        (s, err quota)
        (add_decoded fs codec limits (codec.frame_bytes frame)
          (decode name (codec.open_frame name frame)) s)
        (λ full. tt)
        (λ room.
          add_decoded-OnOk (codec.frame_bytes frame) (decode name (codec.open_frame name frame)) s
            d)

  read_records-OnOk :
      (names : List Text) (recovered : ℕ) (s : Store D)
      → Distinct s.records
      → OnOk (λ s. Distinct s.records) (read_records fs codec limits recovered names s)
  unfolding read_records
  read_records-OnOk [] recovered s d = d
  read_records-OnOk (name ∷ names) recovered s d =
      and_then-OnOk (λ s. Distinct s.records) (λ s. Distinct s.records)
        (add_frame fs codec limits name recovered (fs.read s.disk name limits.max_record_bytes) s) _
        (add_frame-OnOk name recovered (fs.read s.disk name limits.max_record_bytes) s d)
        (λ u s' d'. read_records-OnOk names _ s' d')

  abbrev Kept : List Entry → Type 0
  Kept records = Distinct records × Fits limits records

  recheck-OnOk :
      (s : Store D) → Distinct s.records → OnOk (λ s. Kept s.records) (recheck fs codec limits s)
  recheck-OnOk s d =
      if_OnOk (λ s. Kept s.records)
        (ltb limits.max_records (length s.records)
          || ltb limits.max_total_bytes (total_bytes s.records))
        (s, err quota) (s, ok tt) (λ full. tt)
        (λ fine. (d, record { few = ground arith; small = ground arith }))

  Kept-drop : (h : Text) (records : List Entry) → Kept records → Kept (drop h records)
  Kept-drop h records (d, f) = (Distinct-drop h records d, drop-Fits fs codec limits h records f)

  settle_and_expire-OnOk :
      (clock : Option ℕ) (random : Text → Randomness) (s : Store D)
      → Kept s.records
      → OnOk (λ s. Sound s.records) (settle_and_expire fs codec limits clock random s)
  unfolding settle_and_expire
  settle_and_expire-OnOk clock random s (d, f) =
      and_then-OnOk (λ s. Sound s.records) (λ s. Sound s.records)
        (settle_each fs codec limits random s.records s) _
        (settle_each-OnOk random s.records s d (Settling-start s.records d) f)
        (λ u s' p. expire-OnOk Sound Sound-drop clock s' p)

  clean_up-OnOk :
      (clock : Option ℕ) (random : Text → Randomness) (names : List Text) (s : Store D)
      → Kept s.records
      → OnOk (λ s. Sound s.records) (clean_up fs codec limits clock random names s)
  unfolding clean_up
  clean_up-OnOk clock random names s k =
      and_then-OnOk (λ s. Kept s.records) (λ s. Sound s.records)
        (remove_all fs codec limits (keep is_temp_name names) s) _
        (remove_all-OnOk Kept Kept-drop (keep is_temp_name names) s k)
        (λ u s' k'. settle_and_expire-OnOk clock random s' k')

  check_again-OnOk :
      (clock : Option ℕ) (random : Text → Randomness) (names : List Text) (s : Store D)
      → Distinct s.records
      → OnOk (λ s. Sound s.records) (check_again fs codec limits clock random names s)
  unfolding check_again
  check_again-OnOk clock random names s d =
      and_then-OnOk (λ s. Kept s.records) (λ s. Sound s.records) (recheck fs codec limits s)
        (λ u s'. clean_up fs codec limits clock random names s') (recheck-OnOk s d)
        (λ u s' k. clean_up-OnOk clock random names s' k)

  read_in-OnOk :
      (clock : Option ℕ) (random : Text → Randomness) (names : List Text) (s : Store D)
      → Distinct s.records
      → OnOk (λ s. Sound s.records) (read_in fs codec limits clock random names s)
  unfolding read_in
  read_in-OnOk clock random names s d =
      and_then-OnOk (λ s. Distinct s.records) (λ s. Sound s.records)
        (read_records fs codec limits 0 (keep is_operation_handle names) s) _
        (read_records-OnOk (keep is_operation_handle names) 0 s d)
        (λ u s' d'. check_again-OnOk clock random names s' d')

  open_names-OnOk :
      (clock : Option ℕ) (random : Text → Randomness) (names : Option (List Text)) (s : Store D)
      → Distinct s.records
      → OnOk (λ s. Sound s.records) (open_names fs codec limits clock random names s)
  open_names-OnOk clock random none s d = tt
  open_names-OnOk clock random (some names) s d =
      let opened = read_in fs codec limits clock random names s in
      let known : Store D × Result (Unit {0}) =
        if has_strangers fs codec limits names then (s, err corrupt) else opened in
      if_OnOk (λ s. Sound s.records) (ltb (limits.max_records * 2 + 1) (length names))
        (s, err quota) known (λ e. tt)
        (λ e.
          if_OnOk (λ s. Sound s.records) (has_strangers fs codec limits names) (s, err corrupt)
            opened (λ e. tt) (λ e. read_in-OnOk clock random names s d))

  or_closed-OnOk :
      (P : Store D → Type 0) (p : Store D × Result (Unit {0}))
      → OnOk P p
      → OnOk P (or_closed fs codec limits p)
  or_closed-OnOk P (s, ok u) h = h
  or_closed-OnOk P (s, err e) h = tt

  -- A store that opened has distinct handles, fits its limits, and holds no record whose commit is
  -- in doubt as `committing`, whatever the disk, the clock and the random bytes are.
  pub open_store_settles :
      (clock : Option ℕ) (random : Text → Randomness) (disk : D) (s : Store D)
      → open_store fs codec limits clock random disk ≡ (s, ok tt)
      → Distinct s.records
        × Fits limits s.records
        × ((h : Text) → state_of h s.records ≢ some committing)
  unfolding open_store entry_of
  open_store_settles clock random disk s opened =
      let named = fs.list disk (limits.max_records * 2 + 2) in
      let fine =
        or_closed-OnOk (λ s. Sound s.records)
          (open_names fs codec limits clock random named (empty fs codec limits disk))
          (open_names-OnOk clock random named (empty fs codec limits disk) tt) in
      let (settled, fits) = subst (OnOk (λ s. Sound s.records)) opened fine in
      (settled.unique, fits, λ h. settled.beside h refl)
