-- ===== src/Sync/Approvals.antt =====
-- core/notesnook-sync-coordinator.ts: the operator's approval of markers for upload, and the summary
-- of the markers that block one.
pub mod Effect
pub mod Summary
use nook_bridge.Common.{
  ℕ, zero, suc, ◌+◌, Bool, true, false, not, ◌&&◌, ◌||◌, Option, none, some, List, [], ◌∷◌, Text,
  codes, leb, ltb, ◌==◌, max, if◌then◌else◌, map, count,
}
use nook_bridge.Common.Js.{JsValue, property, safe_from}
use nook_bridge.Sync.Types.{
  SyncOperation, create, append, update, delete, SyncOrigin, mcp, unknown, operator,
  SyncPendingMarker, WriteError, invalid_input, Result, ok, err, ◌>>=◌, ◌>>◌, require,
  require_record, settled,
}
use nook_bridge.Sync.Store.{SyncStore, greatest}
use nook_bridge.Sync.Queue.{Coordinator, install, attempt}

abbrev pub newly_approved : ℕ → SyncPendingMarker → Bool
newly_approved through m = not (settled m || ltb through m.sequence)

abbrev pub approve : ℕ → SyncPendingMarker → SyncPendingMarker
approve through m = if newly_approved through m then record m { approved = true } else m

unfoldable pub parse_approval : JsValue → Result ℕ
parse_approval request = do
  record_ ← require_record request
  require (safe_from 1 (property (codes "throughSequence") record_)) invalid_input

pub record SyncApproveResult : Type 0 where
  pub approved : ℕ
  pub through_sequence : ℕ

module _ {S : Type 0} (store : SyncStore S) where
  unfoldable pub approve_through : Coordinator S → ℕ → Coordinator S × Result SyncApproveResult
  approve_through c through =
      let approved = count (newly_approved through) c.pending in
      let result : SyncApproveResult = record { approved = approved; through_sequence = through } in
      if ltb (greatest c.pending) through
      then (c, err invalid_input)
      else if ltb 0 approved
      then install store c (map (approve through) c.pending) c.next_sequence result
      else (c, ok result)

  unfoldable pub approve_pending :
      Coordinator S → JsValue → Coordinator S × Result SyncApproveResult
  approve_pending c request = attempt store c (parse_approval request) (approve_through c)

pub record SyncBlockingSummary : Type 0 where
  pub total : ℕ
  pub creates : ℕ
  pub appends : ℕ
  pub updates : ℕ
  pub deletes : ℕ
  pub by_operator : ℕ
  pub by_unknown : ℕ
  pub highest_sequence : Option ℕ

abbrev bump_operation : SyncOperation → SyncBlockingSummary → SyncBlockingSummary
bump_operation create s = record s { creates = suc s.creates }
bump_operation append s = record s { appends = suc s.appends }
bump_operation update s = record s { updates = suc s.updates }
bump_operation delete s = record s { deletes = suc s.deletes }

abbrev bump_origin : SyncOrigin → SyncBlockingSummary → SyncBlockingSummary
bump_origin operator s = record s { by_operator = suc s.by_operator }
bump_origin unknown s = record s { by_unknown = suc s.by_unknown }
bump_origin mcp s = s

abbrev higher : Option ℕ → ℕ → Option ℕ
higher none n = some n
higher (some h) n = if ltb h n then some n else some h

-- The body of the loop of `blockingSummary`.
abbrev pub tally : SyncBlockingSummary → SyncPendingMarker → SyncBlockingSummary
tally s m =
    let t = bump_origin m.origin (bump_operation m.operation s) in
    if settled m
    then s
    else record t { total = suc s.total; highest_sequence = higher s.highest_sequence m.sequence }

unfoldable pub tally_all : SyncBlockingSummary → List SyncPendingMarker → SyncBlockingSummary
tally_all s [] = s
tally_all s (m ∷ ms) = tally_all (tally s m) ms

abbrev pub no_blocking : SyncBlockingSummary
no_blocking = record {
  total = 0;
  creates = 0;
  appends = 0;
  updates = 0;
  deletes = 0;
  by_operator = 0;
  by_unknown = 0;
  highest_sequence = none;
}

unfoldable pub blocking_summary : List SyncPendingMarker → SyncBlockingSummary
unfolding tally_all
blocking_summary pending = tally_all no_blocking pending
