-- ===== src/Sync/Store/RoundTrip.antt =====
-- core/notesnook-sync-coordinator.ts: what a coordinator saves is what its successor loads.
use nook_bridge.Common.{
  ℕ, ◌≤◌, ◌≡◌, refl, Bool, true, false, List, [], ◌∷◌, arith, All, length, map, leb, codes,
  length-map, text_eq, some,
}
use nook_bridge.Common.Js.{property, items-from_items, max_safe_integer, safe_from, number, nat}
use nook_bridge.Sync.Types.{
  SyncPendingMarker, ok, parse_operation-name, parse_origin-name, valid_note_id,
  max_pending_markers,
}
use nook_bridge.Sync.Store.{
  marker_value, state_value, validate_marker, validate_markers, validate_state, parse_approved,
  approved_field,
}

-- The parts of a marker that every operation of the coordinator checks.
pub record IsStorable (m : SyncPendingMarker) : Type 0 where
  pub named : valid_note_id m.note_id ≡ true
  pub positive : 1 ≤ m.sequence
  pub safe : m.sequence ≤ max_safe_integer

approved_back : (b : Bool) → parse_approved (property (codes "approved") (approved_field b)) ≡ ok b
unfolding property text_eq
approved_back true = refl
approved_back false = refl

safe_back : (n : ℕ) → 1 ≤ n → n ≤ max_safe_integer → safe_from 1 (number (nat n)) ≡ some n
safe_back n h k = ground arith

validate_marker-value :
    (m : SyncPendingMarker) → IsStorable m → validate_marker (marker_value m) ≡ ok m
unfolding validate_marker property text_eq
validate_marker-value m h =
    rw
      (
        parse_origin-name,
        approved_back,
        parse_operation-name,
        h.named,
        safe_back m.sequence h.positive h.safe,
      )
      refl

validate_markers-value :
    (ms : List SyncPendingMarker)
    → All IsStorable ms
    → validate_markers (map marker_value ms) ≡ ok ms
unfolding validate_markers
validate_markers-value [] h = refl
validate_markers-value (m ∷ ms) (h, hs) =
    rw (validate_marker-value m h, validate_markers-value ms hs) refl

-- A saved queue of at most 64 markers, each with a valid id and a positive safe sequence, is loaded
-- back as it was, with the order, the origins and the approvals.
pub validate_state-value :
    (ms : List SyncPendingMarker)
    → All IsStorable ms
    → length ms ≤ max_pending_markers
    → validate_state (state_value ms) ≡ ok ms
unfolding validate_state state_value property text_eq
validate_state-value ms h few =
    rw (items-from_items, length-map)
      (let fits : leb (length ms) max_pending_markers ≡ true = ground arith in
        rw (fits, validate_markers-value ms h) refl)
