-- ===== src/Sync/SingleFlight.antt =====
-- core/notesnook-sync-coordinator.ts: `requestSync` and `#clearFlight`. A promise is the number of its
-- drain. A drain that has settled is cleared by a callback later, and requests may come in between. The
-- executor is taken not to call `requestSync` before it returns its promise.
use nook_bridge.Common.{
  ℕ, suc, ◌≤◌, ◌≡◌, refl, Bool, true, not, Option, none, some, List, [], ◌∷◌, ◌==◌, if◌then◌else◌,
  length, keep, any, arith, Bool-cases, inl, inr,
}

pub record Requests : Type 0 where
  pub in_flight : Option ℕ
  pub started : ℕ
  pub running : List ℕ
  pub settled : List ℕ

abbrev pub no_requests : Requests
no_requests = record { in_flight = none; started = 0; running = []; settled = [] }

abbrev pub join_or_start : Requests → Option ℕ → Requests × ℕ
join_or_start s (some flight) = (s, flight)
join_or_start s none = (
  record s { in_flight = some s.started; started = suc s.started; running = s.started ∷ s.running },
  s.started,
)

-- The requests afterwards, and the promise that is returned.
unfoldable pub request_sync : Requests → Requests × ℕ
request_sync s = join_or_start s s.in_flight

abbrev pub is_flight : ℕ → ℕ → Bool
is_flight flight m = m == flight

-- The drain ends, with a value or by a throw.
unfoldable pub settle_drain : Requests → ℕ → Requests
settle_drain s flight = record s {
  running = keep (λ m. not (is_flight flight m)) s.running;
  settled = flight ∷ s.settled;
}

abbrev pub cleared : Option ℕ → ℕ → Option ℕ
cleared none flight = none
cleared (some m) flight = if m == flight then none else some m

-- The callback on the drain's promise.
unfoldable pub clear_flight : Requests → ℕ → Requests
clear_flight s flight = record s {
  in_flight = cleared s.in_flight flight;
  settled = keep (λ m. not (is_flight flight m)) s.settled;
}

pub data Step : Requests → Requests → Type 0 where
  requests : (s : Requests) → Step s (request_sync s).0
  settles :
      (s : Requests) (flight : ℕ)
      → any (is_flight flight) s.running ≡ true
      → Step s (settle_drain s flight)
  clears :
      (s : Requests) (flight : ℕ)
      → any (is_flight flight) s.settled ≡ true
      → Step s (clear_flight s flight)

pub data Reach : Requests → Type 0 where
  here : Reach no_requests
  next : {s t : Requests} → Reach s → Step s t → Reach t

-- Nothing is in flight, or a drain runs, or it has settled and waits for its callback.
data Phase : Requests → Type 0 where
  idle : (k : ℕ) → Phase (record { in_flight = none; started = k; running = []; settled = [] })
  flying :
      (n k : ℕ) → Phase (record { in_flight = some n; started = k; running = n ∷ []; settled = [] })
  landed :
      (n k : ℕ) → Phase (record { in_flight = some n; started = k; running = []; settled = n ∷ [] })

settle_drain-Phase :
    (s : Requests) (flight : ℕ)
    → any (is_flight flight) s.running ≡ true
    → Phase s
    → Phase (settle_drain s flight)
unfolding settle_drain
settle_drain-Phase s flight h (idle k) = absurd (ground arith)
settle_drain-Phase s flight h (flying n k) = elim (Bool-cases (n == flight)) [
  | inl e ↦ let same : n ≡ flight = ground arith in rw (e, same) (landed flight k)
  | inr e ↦ absurd (ground arith)
]
settle_drain-Phase s flight h (landed n k) = absurd (ground arith)

clear_flight-Phase :
    (s : Requests) (flight : ℕ)
    → any (is_flight flight) s.settled ≡ true
    → Phase s
    → Phase (clear_flight s flight)
unfolding clear_flight
clear_flight-Phase s flight h (idle k) = absurd (ground arith)
clear_flight-Phase s flight h (flying n k) = absurd (ground arith)
clear_flight-Phase s flight h (landed n k) = elim (Bool-cases (n == flight)) [
  | inl e ↦ rw e (idle k)
  | inr e ↦ absurd (ground arith)
]

request_sync-Phase : (s : Requests) → Phase s → Phase (request_sync s).0
unfolding request_sync
request_sync-Phase s (idle k) = flying k (suc k)
request_sync-Phase s (flying n k) = flying n k
request_sync-Phase s (landed n k) = landed n k

Step-Phase : {s t : Requests} → Step s t → Phase s → Phase t
Step-Phase (requests s) p = request_sync-Phase s p
Step-Phase (settles s flight h) p = settle_drain-Phase s flight h p
Step-Phase (clears s flight h) p = clear_flight-Phase s flight h p

Reach-Phase : {s : Requests} → Reach s → Phase s
Reach-Phase here = idle 0
Reach-Phase (next r step) = Step-Phase step (Reach-Phase r)

joins_running :
    (s : Requests) (flight : ℕ)
    → any (is_flight flight) s.running ≡ true
    → Phase s
    → (length s.running ≤ 1) × ((request_sync s).1 ≡ flight) × ((request_sync s).0 ≡ s)
unfolding request_sync
joins_running s flight h (idle k) = absurd (ground arith)
joins_running s flight h (flying n k) = (omega arith, ground arith, refl)
joins_running s flight h (landed n k) = absurd (ground arith)

-- However requests, ends of drains and their callbacks follow each other: while a drain runs it is the
-- only one, and a request starts no other and returns the promise of the one that runs.
pub request_sync_joins :
    {s : Requests} (flight : ℕ)
    → Reach s
    → any (is_flight flight) s.running ≡ true
    → (length s.running ≤ 1) × ((request_sync s).1 ≡ flight) × ((request_sync s).0 ≡ s)
request_sync_joins {s} flight r h = joins_running s flight h (Reach-Phase r)
