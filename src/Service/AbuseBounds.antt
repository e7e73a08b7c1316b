-- ===== src/Service/AbuseBounds.antt =====
-- service/service-abuse-bounds.ts: the limits on requests and connections that a service is
-- configured with. `none` is the throw.
use nook_bridge.Common.{
  ℕ, ◌≤◌, ◌≡◌, subst, Bool, ◌&&◌, Option, none, some, List, [], ◌∷◌, Text, codes, text_eq, leb,
  ◌==◌, if◌then◌else◌, length, any, all, arith, ◌>>=◌, ◌>>◌, check, bind-some, check-some, OnSome,
}
use nook_bridge.Common.Js.{JsValue, JsFields, undefined, object, number, nat, property, own_keys}

pub record ServiceAbuseBounds : Type 0 where
  pub request_timeout_ms : ℕ
  pub connection_idle_timeout_ms : ℕ
  pub per_connection_budget_ms : ℕ
  pub per_process_requests_per_second : ℕ
  pub per_process_burst_size : ℕ

-- `SERVICE_ABUSE_BOUNDS_LIMITS`, and the bounds where none are given.
abbrev pub abuse_limits : ServiceAbuseBounds
abuse_limits = record {
  request_timeout_ms = 60000;
  connection_idle_timeout_ms = 300000;
  per_connection_budget_ms = 600000;
  per_process_requests_per_second = 100;
  per_process_burst_size = 100;
}

abbrev pub default_abuse_bounds : ServiceAbuseBounds
default_abuse_bounds = record {
  request_timeout_ms = 10000;
  connection_idle_timeout_ms = 30000;
  per_connection_budget_ms = 120000;
  per_process_requests_per_second = 20;
  per_process_burst_size = 10;
}

abbrev pub bound_fields : List Text
bound_fields =
    codes "requestTimeoutMs"
    ∷ codes "connectionIdleTimeoutMs"
    ∷ codes "perConnectionBudgetMs"
    ∷ codes "perProcessRequestsPerSecond"
    ∷ codes "perProcessBurstSize"
    ∷ []

-- An integer from 1 to the field's maximum.
unfoldable pub bounded_number : ℕ → JsValue → Option ℕ
bounded_number maximum (number (nat n)) = if leb 1 n && leb n maximum then some n else none
bounded_number maximum _ = none

unfoldable pub captured : JsFields → Option ServiceAbuseBounds
captured fs = do
  timeout ← bounded_number abuse_limits.request_timeout_ms (property (codes "requestTimeoutMs") fs)
  idle ←
      bounded_number abuse_limits.connection_idle_timeout_ms
        (property (codes "connectionIdleTimeoutMs") fs)
  budget ←
      bounded_number abuse_limits.per_connection_budget_ms
        (property (codes "perConnectionBudgetMs") fs)
  rate ←
      bounded_number abuse_limits.per_process_requests_per_second
        (property (codes "perProcessRequestsPerSecond") fs)
  burst ←
      bounded_number abuse_limits.per_process_burst_size (property (codes "perProcessBurstSize") fs)
  some (record {
    request_timeout_ms = timeout;
    connection_idle_timeout_ms = idle;
    per_connection_budget_ms = budget;
    per_process_requests_per_second = rate;
    per_process_burst_size = burst;
  })

-- Five own keys, all of them fields.
abbrev has_bound_keys : JsFields → Bool
has_bound_keys fs =
    length (own_keys fs) == 5 && all (λ key. any (text_eq key) bound_fields) (own_keys fs)

unfoldable pub normalize_service_abuse_bounds : JsValue → Option ServiceAbuseBounds
normalize_service_abuse_bounds undefined = some default_abuse_bounds
normalize_service_abuse_bounds (object fs) = do check (has_bound_keys fs); captured fs
normalize_service_abuse_bounds _ = none

-- Each bound is positive and at most its limit.
pub record AreBounded (b : ServiceAbuseBounds) : Type 0 where
  pub timeout : (1 ≤ b.request_timeout_ms) × (b.request_timeout_ms ≤ 60000)
  pub idle : (1 ≤ b.connection_idle_timeout_ms) × (b.connection_idle_timeout_ms ≤ 300000)
  pub budget : (1 ≤ b.per_connection_budget_ms) × (b.per_connection_budget_ms ≤ 600000)
  pub rate : (1 ≤ b.per_process_requests_per_second) × (b.per_process_requests_per_second ≤ 100)
  pub burst : (1 ≤ b.per_process_burst_size) × (b.per_process_burst_size ≤ 100)

bounded_number-between :
    (maximum : ℕ) (v : JsValue) (n : ℕ)
    → bounded_number maximum v ≡ some n
    → (1 ≤ n) × (n ≤ maximum)
unfolding bounded_number
bounded_number-between maximum (number (nat m)) n h = (ground arith, ground arith)
bounded_number-between maximum _ n h = cc

captured-AreBounded : (fs : JsFields) (b : ServiceAbuseBounds) → captured fs ≡ some b → AreBounded b
unfolding captured
captured-AreBounded fs b h =
    let (t, et, h1) =
      bind-some (bounded_number 60000 (property (codes "requestTimeoutMs") fs)) _ b h in
    let (i, ei, h2) =
      bind-some (bounded_number 300000 (property (codes "connectionIdleTimeoutMs") fs)) _ b h1 in
    let (g, eg, h3) =
      bind-some (bounded_number 600000 (property (codes "perConnectionBudgetMs") fs)) _ b h2 in
    let (r, er, h4) =
      bind-some (bounded_number 100 (property (codes "perProcessRequestsPerSecond") fs)) _ b h3 in
    let (u, eu, h5) =
      bind-some (bounded_number 100 (property (codes "perProcessBurstSize") fs)) _ b h4 in
    subst (OnSome AreBounded) h5 (record {
      timeout = bounded_number-between 60000 _ t et;
      idle = bounded_number-between 300000 _ i ei;
      budget = bounded_number-between 600000 _ g eg;
      rate = bounded_number-between 100 _ r er;
      burst = bounded_number-between 100 _ u eu;
    })

-- Whatever is normalised without a throw, the default included, has positive bounds within the
-- limits.
pub normalize-AreBounded :
    (v : JsValue) (b : ServiceAbuseBounds)
    → normalize_service_abuse_bounds v ≡ some b
    → AreBounded b
unfolding normalize_service_abuse_bounds
normalize-AreBounded undefined b h = subst (OnSome AreBounded) h (record {
  timeout = (omega arith, omega arith);
  idle = (omega arith, omega arith);
  budget = (omega arith, omega arith);
  rate = (omega arith, omega arith);
  burst = (omega arith, omega arith);
})
normalize-AreBounded (object fs) b h =
    let (keys, rest) = check-some (has_bound_keys fs) _ b h in captured-AreBounded fs b rest
normalize-AreBounded _ b h = cc
